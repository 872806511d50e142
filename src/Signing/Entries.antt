-- ===== src/Signing/Entries.antt =====
-- How the list of hashes of crypto_sign grows.
use mathlib.Core.Path.{subst}
use ledger_namada.Common.{
  append_assoc, ℕ, zero, suc, ◌+◌, ◌≤◌, ◌<◌, ◌≡◌, refl, ◌∙◌, ◌⊎◌, sym, ap, arith, true, some, List,
  [], ◌∷◌, ◌++◌, length, length-append, get_elem?, leb, Bool-cases, inl, inr,
}
use ledger_namada.Transaction.{ParserTx}
use ledger_namada.Signing.Outcomes.{Outcomes, Outcomes-done}
use ledger_namada.Signing.Response.{Entry, add_entry}

-- fs is es with at most n entries behind it.
pub record Grows (n : ℕ) (es fs : List Entry) : Type 0 where
  pub added : List Entry
  pub split : fs ≡ es ++ added
  pub bound : length added ≤ n

pub append_nil : (xs : List Entry) → xs ++ [] ≡ xs
append_nil [] = refl
append_nil (x ∷ xs) = ap (λ l. x ∷ l) (append_nil xs)

pub Grows-refl : (es : List Entry) → Grows 0 es es
Grows-refl es = record { added = []; split = sym (append_nil es); bound = omega arith }

pub Grows-trans :
    {m n : ℕ} {es fs gs : List Entry} → Grows m es fs → Grows n fs gs → Grows (m + n) es gs
Grows-trans g h = record {
  added = g.added ++ h.added;
  split = h.split ∙ ap (λ l. l ++ h.added) g.split ∙ append_assoc _ g.added h.added;
  bound = omega (arith, length-append g.added h.added, g.bound, h.bound);
}

pub Grows-le : {m n : ℕ} {es fs : List Entry} → m ≤ n → Grows m es fs → Grows n es fs
Grows-le l g = record { added = g.added; split = g.split; bound = omega (arith, l, g.bound) }

pub length-Grows : {n : ℕ} {es fs : List Entry} → Grows n es fs → length fs ≤ length es + n
length-Grows {es = es} g = omega (arith, ap length g.split, length-append es g.added, g.bound)

-- Room for n more entries, or no statement on accesses.
pub record Room (Bad : Type 0) (n : ℕ) (es : List Entry) : Type 0 where
  pub fits : (length es + n ≤ 10) ⊎ Bad

module _ {Bad : Type 0} where
  pub Room-Grows :
      {m n : ℕ} {es fs : List Entry} → Room Bad (m + n) es → Grows m es fs → Room Bad n fs
  Room-Grows r g = elim r.fits [
    | inl h ↦ record { fits = inl (omega (arith, h, length-Grows g)) }
    | inr b ↦ record { fits = inr b }
  ]

  pub Room-le : {m n : ℕ} {es : List Entry} → m ≤ n → Room Bad n es → Room Bad m es
  Room-le l r = elim r.fits [
    | inl h ↦ record { fits = inl (omega (arith, h, l)) }
    | inr b ↦ record { fits = inr b }
  ]

-- An entry of the list that is not in the first slot.
pub record IsStored (es : List Entry) (idx : ℕ) (hash : List ℕ) : Type 0 where
  pub place : ℕ
  pub behind : 0 < place
  pub found : get_elem? es place ≡ some (record { idx = idx; hash = hash })

get_elem?-append :
    (es zs : List Entry) (i : ℕ) (e : Entry)
    → get_elem? es i ≡ some e
    → get_elem? (es ++ zs) i ≡ some e
get_elem?-append [] zs i e h = absurd cc
get_elem?-append (x ∷ es) zs zero e h = h
get_elem?-append (x ∷ es) zs (suc i) e h = get_elem?-append es zs i e h

get_elem?-last : (es : List Entry) (e : Entry) → get_elem? (es ++ e ∷ []) (length es) ≡ some e
get_elem?-last [] e = refl
get_elem?-last (x ∷ es) e = get_elem?-last es e

pub IsStored-Grows :
    {n idx : ℕ} {hash : List ℕ} {es fs : List Entry}
    → Grows n es fs
    → IsStored es idx hash
    → IsStored fs idx hash
IsStored-Grows {idx = idx} {hash = hash} {es = es} g s = record {
  place = s.place;
  behind = s.behind;
  found =
      subst (λ (l : List Entry). get_elem? l s.place ≡ some (record { idx = idx; hash = hash }))
        (sym g.split)
        (get_elem?-append es g.added s.place (record { idx = idx; hash = hash }) s.found);
}

module _ {Bad : Type 0} where
  pub Outcomes-add_entry :
      (idx : ℕ) (hash : List ℕ) (es : List Entry)
      → Room Bad 1 es
      → 0 < length es
      → Outcomes Bad (λ fs. Grows 1 es fs × IsStored fs idx hash) (add_entry idx hash es)
  unfolding add_entry
  Outcomes-add_entry idx hash es room pos = elim (Bool-cases (leb 10 (length es))) [
    | inl e ↦ rw e (record { result = λ a f. absurd cc; access = λ f. full room.fits e })
    | inr e ↦ rw e (
        Outcomes-done _ (
          record {
            added = record { idx = idx; hash = hash } ∷ [];
            split = refl;
            bound = omega arith;
          },
          record { place = length es; behind = pos; found = get_elem?-last es _ },
        ))
  ]
    where
      full : (length es + 1 ≤ 10) ⊎ Bad → leb 10 (length es) ≡ true → Bad
      full (inl h) e = absurd (ground arith)
      full (inr b) e = b

-- Reading an element that is there.
pub found_at :
    {A : Type 0} (xs : List A) (i : ℕ) → i < length xs → (a : A) × (get_elem? xs i ≡ some a)
found_at [] i h = absurd (omega arith)
found_at (x ∷ xs) zero h = (x, refl)
found_at (x ∷ xs) (suc i) h = found_at xs i (omega arith)

pub length-pos : {n : ℕ} {es fs : List Entry} → Grows n es fs → 0 < length es → 0 < length fs
length-pos {es = es} g p = omega (arith, ap length g.split, length-append es g.added, p)

-- What the parser leaves: the arrays are as long as their counters say.
pub record IsSignable (tx : ParserTx) : Type 0 where
  pub signatures_read : tx.sections.signatures_len ≤ length tx.sections.signatures
  pub signatures_few : tx.sections.signatures_len ≤ 3
  pub extra_read : tx.sections.extra_data_len ≤ length tx.sections.extra_data
  pub memo_read : (i : ℕ) → tx.memo_section ≡ some i → i < tx.sections.extra_data_len
