-- ===== src/MaspKeys/Diversifier.antt =====
-- The loop of computeDiversifier of app/src/crypto_helper.c.
use ledger_namada.Common.{
  ℕ, zero, suc, ◌+◌, ◌%◌, ◌≤◌, ◌<◌, ◌≡◌, some, List, [], ◌∷◌, ◌==◌, if◌then◌else◌,
}
use ledger_namada.Sdk.{Sdk}
use ledger_namada.MaspKeys.{found, Search, first_valid}

-- The next index, lowest byte first, which wraps around behind the last one.
abbrev pub next_index : List ℕ → List ℕ
next_index [] = []
next_index (x ∷ xs) = let rest = next_index xs in if x == 255 then 0 ∷ rest else (x + 1) ∷ xs

abbrev pub next_four : List ℕ → List ℕ
next_four start = next_index (next_index (next_index (next_index start)))

-- get_default_diversifier_list encrypts four indices and leaves the one behind them (get_diversifiers
-- of app/rust/src/lib.rs).
pub record CountsByFour (sdk : Sdk) : Type 0 where
  pub counts : (dk start : List ℕ) → (sdk.diversifier_list dk start).0 ≡ next_four start

-- An index that is divisible by four, as the zeroed one is that compute_keys starts with.
abbrev pub IsAligned : List ℕ → Type 0
IsAligned [] = ⊥
IsAligned (x ∷ xs) = (x < 256) × (x % 4 ≡ 0)

-- The list of the round k.
unfoldable pub list_after : Sdk → List ℕ → List ℕ → ℕ → List ℕ
list_after sdk dk start zero = (sdk.diversifier_list dk start).1
list_after sdk dk start (suc k) = list_after sdk dk (sdk.diversifier_list dk start).0 k

-- What is found by the round k: the first valid diversifier of one of the lists up to it.
pub record IsFound (sdk : Sdk) (dk start : List ℕ) (k : ℕ) (s : Search) : Type 0 where
  pub diversifier : List ℕ
  pub round : ℕ
  pub by_round : round ≤ k
  pub valid : first_valid sdk 4 (list_after sdk dk start round) ≡ some diversifier
  pub answered : s ≡ found diversifier
