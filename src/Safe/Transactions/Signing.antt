-- ===== src/Safe/Transactions/Signing.antt =====
-- What the hash of a Safe transaction that the signers sign commits to. The hash is a parameter, and
-- two transactions with one hash give two inputs of it with one output.
use harmony_migration.Base.{
  ℕ, ◌*◌, ◌≡◌, ◌⊎◌, inl, refl, sym, ap, ◌∙◌, List, [], ◌∷◌, ◌++◌, length, drop, ok, >>=-eq-ok,
  ok_injective,
}
use harmony_migration.Abi.Bytes.{Bytes, number_of}
use harmony_migration.Abi.Words.{words, words-eq-ok, length-put_words}
use harmony_migration.Abi.Batch.{IsAddress, words-injective, number_of-injective, head_or}
use harmony_migration.Airdrop.BatchTree.Binding.{
  Collision, append_injective, then_or, eq_or_Collision,
}
use harmony_migration.Safe.Transactions.{
  SafeTx, domain_hash, message_bytes, message_hash, safe_tx_hash,
}

length-words : (vs : List ℕ) {out : Bytes} → words vs ≡ ok out → length out ≡ 32 * length vs
length-words vs h = ap length (sym ((words-eq-ok vs h).1)) ∙ length-put_words vs

same_words : (vs ws : List ℕ) {a b : Bytes} → words vs ≡ ok a → words ws ≡ ok b → a ≡ b → vs ≡ ws
same_words vs ws {a} {b} h k e = words-injective vs ws h (k ∙ ap ok (sym e))

abbrev pub HasAddresses : SafeTx → Type 0
HasAddresses tx = IsAddress tx.to × IsAddress tx.gas_token × IsAddress tx.refund_receiver

-- The fields that the hash covers are equal.
abbrev pub SameTx : SafeTx → SafeTx → Type 0
SameTx s t =
    (s.to ≡ t.to)
    × (s.value ≡ t.value)
    × (s.calldata ≡ t.calldata)
    × (s.operation ≡ t.operation)
    × (s.safe_tx_gas ≡ t.safe_tx_gas)
    × (s.base_gas ≡ t.base_gas)
    × (s.gas_price ≡ t.gas_price)
    × (s.gas_token ≡ t.gas_token)
    × (s.refund_receiver ≡ t.refund_receiver)

module _ (keccak256 : Bytes → Bytes) (size : (b : Bytes) → length (keccak256 b) ≡ 32)
    (domain_typehash safe_tx_typehash : Bytes) where
  same_domain :
      (c d : ℕ) (s t : Bytes) {a b : Bytes}
      → IsAddress s
      → IsAddress t
      → domain_hash keccak256 domain_typehash safe_tx_typehash c s ≡ ok a
      → domain_hash keccak256 domain_typehash safe_tx_typehash d t ≡ ok b
      → a ≡ b
      → ((c ≡ d) × (s ≡ t)) ⊎ Collision keccak256
  unfolding domain_hash
  same_domain c d s t is it h k e =
      let (u, hu, ju) = >>=-eq-ok (words (c ∷ number_of s ∷ [])) _ h in
      let (v, hv, jv) = >>=-eq-ok (words (d ∷ number_of t ∷ [])) _ k in
      then_or
        (eq_or_Collision keccak256 size (domain_typehash ++ u) (domain_typehash ++ v)
          (ok_injective ju ∙ e ∙ sym (ok_injective jv)))
        (λ p.
          let same =
            same_words (c ∷ number_of s ∷ []) (d ∷ number_of t ∷ []) hu hv
              ((append_injective domain_typehash u domain_typehash v refl p).1) in
          inl (
            ap (head_or 0) same,
            number_of-injective s t is it (ap (λ l. head_or 0 (drop 1 l)) same),
          ))

  same_message_bytes :
      (s t : SafeTx) (m n : ℕ) {a b : Bytes}
      → HasAddresses s
      → HasAddresses t
      → message_bytes keccak256 domain_typehash safe_tx_typehash s m ≡ ok a
      → message_bytes keccak256 domain_typehash safe_tx_typehash t n ≡ ok b
      → a ≡ b
      → ((m ≡ n) × SameTx s t) ⊎ Collision keccak256
  unfolding message_bytes
  same_message_bytes s t m n is it h k e =
      let front = λ (x : SafeTx). number_of x.to ∷ x.value ∷ [] in
      let back = λ (x : SafeTx) (i : ℕ).
        x.operation
        ∷ x.safe_tx_gas
        ∷ x.base_gas
        ∷ x.gas_price
        ∷ number_of x.gas_token
        ∷ number_of x.refund_receiver
        ∷ i
        ∷ [] in
      let (fs, hfs, rs) = >>=-eq-ok (words (front s)) _ h in
      let (bs, hbs, js) = >>=-eq-ok (words (back s m)) _ rs in
      let (ft, hft, rt) = >>=-eq-ok (words (front t)) _ k in
      let (bt, hbt, jt) = >>=-eq-ok (words (back t n)) _ rt in
      let whole = ok_injective js ∙ e ∙ sym (ok_injective jt) in
      let rest =
        (append_injective safe_tx_typehash (fs ++ (keccak256 s.calldata ++ bs)) safe_tx_typehash
          (ft ++ (keccak256 t.calldata ++ bt)) refl whole).1 in
      let (fronts, others) =
        append_injective fs (keccak256 s.calldata ++ bs) ft (keccak256 t.calldata ++ bt)
          (length-words (front s) hfs ∙ sym (length-words (front t) hft)) rest in
      let (hashes, backs) =
        append_injective (keccak256 s.calldata) bs (keccak256 t.calldata) bt
          (size s.calldata ∙ sym (size t.calldata)) others in
      let f = same_words (front s) (front t) hfs hft fronts in
      let b = same_words (back s m) (back t n) hbs hbt backs in
      then_or (eq_or_Collision keccak256 size s.calldata t.calldata hashes) (λ p. inl (
        ap (λ l. head_or 0 (drop 6 l)) b,
        (
          number_of-injective s.to t.to is.0 it.0 (ap (head_or 0) f),
          ap (λ l. head_or 0 (drop 1 l)) f,
          p,
          ap (head_or 0) b,
          ap (λ l. head_or 0 (drop 1 l)) b,
          ap (λ l. head_or 0 (drop 2 l)) b,
          ap (λ l. head_or 0 (drop 3 l)) b,
          number_of-injective s.gas_token t.gas_token is.1 it.1 (ap (λ l. head_or 0 (drop 4 l)) b),
          number_of-injective s.refund_receiver t.refund_receiver is.2 it.2
              (ap (λ l. head_or 0 (drop 5 l)) b),
        ),
      ))

  same_message :
      (s t : SafeTx) (m n : ℕ) {a b : Bytes}
      → HasAddresses s
      → HasAddresses t
      → message_hash keccak256 domain_typehash safe_tx_typehash s m ≡ ok a
      → message_hash keccak256 domain_typehash safe_tx_typehash t n ≡ ok b
      → a ≡ b
      → ((m ≡ n) × SameTx s t) ⊎ Collision keccak256
  unfolding message_hash
  same_message s t m n is it h k e =
      let (u, hu, ju) =
        >>=-eq-ok (message_bytes keccak256 domain_typehash safe_tx_typehash s m) _ h in
      let (v, hv, jv) =
        >>=-eq-ok (message_bytes keccak256 domain_typehash safe_tx_typehash t n) _ k in
      then_or (eq_or_Collision keccak256 size u v (ok_injective ju ∙ e ∙ sym (ok_injective jv)))
        (λ p. same_message_bytes s t m n is it hu hv p)

  length-domain_hash :
      (c : ℕ) (s : Bytes) {a : Bytes}
      → domain_hash keccak256 domain_typehash safe_tx_typehash c s ≡ ok a
      → length a ≡ 32
  unfolding domain_hash
  length-domain_hash c s h =
      let (u, _, made) = >>=-eq-ok (words (c ∷ number_of s ∷ [])) _ h in
      ap length (sym (ok_injective made)) ∙ size (domain_typehash ++ u)

  -- Two Safe transactions with the same hash are on the same chain, of the same Safe, with the
  -- same nonce and equal in every field, or two inputs of keccak256 with one hash are at hand.
  -- It is assumed that keccak256 returns 32 bytes and that the addresses in them have 20.
  pub safe_tx_hash-binds :
      (c d : ℕ) (safe safe' : Bytes) (s t : SafeTx) (m n : ℕ) {out : Bytes}
      → IsAddress safe
      → IsAddress safe'
      → HasAddresses s
      → HasAddresses t
      → safe_tx_hash keccak256 domain_typehash safe_tx_typehash c safe s m ≡ ok out
      → safe_tx_hash keccak256 domain_typehash safe_tx_typehash d safe' t n ≡ ok out
      → ((c ≡ d) × (safe ≡ safe') × (m ≡ n) × SameTx s t) ⊎ Collision keccak256
  unfolding safe_tx_hash
  safe_tx_hash-binds c d safe safe' s t m n isafe isafe' is it h k =
      let (u, hu, ru) =
        >>=-eq-ok (domain_hash keccak256 domain_typehash safe_tx_typehash c safe) _ h in
      let (x, hx, jx) =
        >>=-eq-ok (message_hash keccak256 domain_typehash safe_tx_typehash s m) _ ru in
      let (v, hv, rv) =
        >>=-eq-ok (domain_hash keccak256 domain_typehash safe_tx_typehash d safe') _ k in
      let (y, hy, jy) =
        >>=-eq-ok (message_hash keccak256 domain_typehash safe_tx_typehash t n) _ rv in
      then_or
        (eq_or_Collision keccak256 size (25 ∷ 1 ∷ (u ++ x)) (25 ∷ 1 ∷ (v ++ y))
          (ok_injective jx ∙ sym (ok_injective jy)))
        (λ p.
          let (domains, messages) =
            append_injective u x v y
              (length-domain_hash c safe hu ∙ sym (length-domain_hash d safe' hv))
              (ap (drop 2) p) in
          then_or (same_domain c d safe safe' isafe isafe' hu hv domains) (λ same.
            then_or (same_message s t m n is it hx hy messages)
              (λ q. inl (same.0, same.1, q.0, q.1))))
