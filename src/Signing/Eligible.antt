-- ===== src/Signing/Eligible.antt =====
-- The loop over the previous signature sections in crypto_sign.
use ledger_namada.Common.{
  ℕ, zero, suc, ◌<◌, ◌≡◌, refl, arith, Bool, true, false, List, take, eq_list, length, ◌||◌, ◌==◌,
}
use ledger_namada.Reader.{slice, address_of, hash_len}
use ledger_namada.Sections.{SignatureSection}
use ledger_namada.Signing.Response.{Entry, all_hashes, is_eligible, knows_hashes, is_known_hash}

is_known_hash_lem : (same : Bool) (n : ℕ) → 0 < n → is_known_hash same n ≡ same
unfolding is_known_hash
is_known_hash_lem same zero p = absurd (omega arith)
is_known_hash_lem true (suc n) p = refl
is_known_hash_lem false (suc zero) p = refl
is_known_hash_lem false (suc (suc n)) p = is_known_hash_lem false (suc n) (omega arith)

no_hash : (n : ℕ) → (suc n == 0) ≡ false
no_hash n = ground arith

knows_hashes_lem :
    (same : Bool) (known n : ℕ) → 0 < known → knows_hashes same known n ≡ (n == 0 || same)
unfolding knows_hashes
knows_hashes_lem same known zero p = refl
knows_hashes_lem true known (suc n) p =
    rw (knows_hashes, is_known_hash_lem true known p, no_hash n, knows_hashes_lem true known n p)
      (or_true (n == 0))
  where
    or_true : (b : Bool) → (b || true) ≡ true
    or_true true = refl
    or_true false = refl
knows_hashes_lem false known (suc n) p =
    rw (knows_hashes, is_known_hash_lem false known p, no_hash n) refl

-- Once the list of hashes is not empty, a previous signature section is signed over exactly if it has
-- no hash, or the first 32 bytes of its hashes are those of the first hash of the list, the raw header's:
-- the hashes behind the first are not compared with anything.
pub is_eligible_lem :
    (mem : ℕ → ℕ) (s : SignatureSection) (es : List Entry)
    → 0 < length es
    → is_eligible mem s es ≡ (
        s.hashes_count == 0
        || eq_list (slice mem (address_of s.hashes.ptr) hash_len) (take hash_len (all_hashes es)))
unfolding is_eligible
is_eligible_lem mem s es p = knows_hashes_lem _ (length es) s.hashes_count p
