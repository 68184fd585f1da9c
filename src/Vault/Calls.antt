-- ===== src/Vault/Calls.antt =====
-- The call data of airdrop/tools/vault_batch.py and its decoding: `deploy_data`, `approve_data`,
-- `deposit_batch_data`, `vault_address`, `decode_deploy`, `decode_approve`, `decode_deposit_batch`. The
-- hash and the selectors are parameters.
use harmony_migration.Base.{
  ℕ, zero, suc, ◌+◌, ◌*◌, ◌%◌, Bool, true, false, not, ◌||◌, Option, none, some, List, [], ◌∷◌,
  ◌++◌, map, sum_of, if◌then◌else◌, ltb, ◌==◌, any_of, length, take, drop, Result, ok, err, ◌>>=◌,
}
use harmony_migration.Base.Order.{text_eq}
use harmony_migration.Abi.Bytes.{Bytes, number_of}
use harmony_migration.Abi.Words.{AbiError, words, word_at}
use harmony_migration.Safe.MultiSend.{transfer_data, decode_transfer}
pub mod Reading
mod Tests

-- What the planning uses of `Artifact`: the creation code, and the factory's address.
pub record Artifact : Type 0 where
  pub creation : Bytes
  pub factory : Bytes

-- `any(x[:12])`
abbrev pub any_nonzero : Bytes → Bool
any_nonzero = any_of (λ b. not (b == 0))

unfoldable pub initcode : Artifact → Bytes → Bytes → Result AbiError Bytes
initcode artifact token governor = do
  arguments ← words (number_of token ∷ number_of governor ∷ [])
  ok (artifact.creation ++ arguments)

unfoldable pub salt_for : Bytes → Result AbiError Bytes
salt_for validator = words (number_of validator ∷ [])

unfoldable pub deploy_data : Artifact → Bytes → Bytes → Bytes → Result AbiError Bytes
deploy_data artifact token validator governor = do
  salt ← salt_for validator
  code ← initcode artifact token governor
  ok (salt ++ code)

module _ (keccak256 : Bytes → Bytes) where
  unfoldable pub vault_address : Artifact → Bytes → Bytes → Bytes → Result AbiError Bytes
  vault_address artifact token validator governor = do
    salt ← salt_for validator
    code ← initcode artifact token governor
    ok (drop 12 (keccak256 (255 ∷ (artifact.factory ++ (salt ++ keccak256 code)))))

-- `APPROVE_SELECTOR + aw(spender) + word(amount)`, the shape of a transfer's call data
unfoldable pub approve_data : Bytes → Bytes → ℕ → Result AbiError Bytes
approve_data approve_selector spender amount = transfer_data approve_selector spender amount

unfoldable pub decode_approve : Bytes → Bytes → Option (Bytes × ℕ)
decode_approve approve_selector body = decode_transfer approve_selector body

-- The words of a deposit of a list.
abbrev pub deposit_words : List ℕ → List ℕ → List ℕ
deposit_words amounts delegators =
    let n = length amounts in 64 ∷ (64 + 32 + 32 * n) ∷ n ∷ (amounts ++ (n ∷ delegators))

unfoldable pub deposit_batch_data : Bytes → List ℕ → List Bytes → Result AbiError Bytes
deposit_batch_data selector amounts delegators = do
  arguments ← words (deposit_words amounts (map number_of delegators))
  ok (selector ++ arguments)

-- `[w(at + 32 * i) for i in range(n)]`
unfoldable pub read_words : ℕ → ℕ → Bytes → List ℕ
read_words zero at a = []
read_words (suc n) at a = word_at a at ∷ read_words n (at + 32) a

-- `[a[at + 32 * i:at + 32 + 32 * i] for i in range(n)]`
unfoldable pub read_slices : ℕ → ℕ → Bytes → List Bytes
read_slices zero at a = []
read_slices (suc n) at a = take 32 (drop at a) ∷ read_slices n (at + 32) a

-- The part of `decode_deposit_batch` that reads the lists, with their length read.
unfoldable pub decode_lists : ℕ → Bytes → Option (List ℕ × List Bytes)
decode_lists n a =
    if not (word_at a 32 == 96 + 32 * n)
      || not (length a == 96 + 32 * n + 32 + 32 * n)
      || not (word_at a (96 + 32 * n) == n)
    then none
    else (let slices_read = read_slices n (128 + 32 * n) a in
        if any_of (λ x. any_nonzero (take 12 x)) slices_read
        then none
        else some (read_words n 96 a, map (drop 12) slices_read))

unfoldable pub decode_deposit_batch : Bytes → Bytes → Option (List ℕ × List Bytes)
decode_deposit_batch selector body =
    let a = drop 4 body in
    if not (text_eq (take 4 body) selector)
      || (ltb (length a) 128 || not (length a % 32 == 0) || not (word_at a 0 == 64))
    then none
    else decode_lists (word_at a 64) a

-- Why a call of the factory is no deployment of a vault.
pub data DeployProblem : Type 0 where
  not_audited malformed other_token zero_governor : DeployProblem

-- The fields of the call data of a deployment, without the address that the factory gives the vault.
unfoldable pub decode_deploy : Artifact → Bytes → Bytes → Result DeployProblem (Bytes × Bytes)
decode_deploy artifact token body =
    let n = length artifact.creation in
    let salt = take 32 body in
    let asset = take 32 (drop (32 + n) body) in
    let governor = drop (32 + n + 32) body in
    if not (length body == 32 + n + 64) || not (text_eq (take n (drop 32 body)) artifact.creation)
    then err not_audited
    else if any_nonzero (take 12 salt)
        || any_nonzero (take 12 asset)
        || any_nonzero (take 12 governor)
    then err malformed
    else if not (text_eq (drop 12 asset) token)
    then err other_token
    else if number_of (drop 12 governor) == 0
    then err zero_governor
    else ok (drop 12 salt, drop 12 governor)
