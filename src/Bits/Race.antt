-- ===== src/Bits/Race.antt =====
-- Concurrent callers of one pool: the load and the compare-and-swap of a call are two atomic steps,
-- and the steps of other callers may come between them.
use native.Mathlib.Decide.{ℕ_discrete}
use mathlib.Core.Logic.{ite}
use mathlib.Core.Path.{subst₂}
use kube_bazellb.Prelude.{
  ℕ, zero, suc, ◌+◌, ◌-◌, ◌/◌, ◌%◌, ◌<◌, ◌≤◌, Bool, true, false, not, ◌&&◌, some, List, ◌≡◌, refl,
  sym, ap, subst, ◌∙◌, ◌↔◌, Bool-cases, Option-cases, inl, inr, [], ◌∷◌, arith, length, get_elem?,
  set, nat_beq, if◌then◌else◌, pos,
}
use kube_bazellb.Bits.{load, compare_and_swap}
use kube_bazellb.Bits.Words.{
  Word, one_hot, or_word, and_not, word_eq, word_eq_sound, bit, bit-or, bit-and_not, length-or,
  length-and_not,
}
use kube_bazellb.Bits.Flags.{flag, AllWide, get_elem?-AllWide, set-AllWide, flag-set}

-- `Allocate` and `Allocated` take a number, `Revoke` gives it back.
pub data Op : Type 0 where
  take give : Op

abbrev pub is_take : Op → Bool
is_take take = true
is_take give = false

-- The word that the swap of the number at offset `d` expects, from the word that was loaded.
abbrev pub expected : Op → Word → ℕ → Word
expected take old d = and_not old (one_hot 32 (d % 32))
expected give old d = or_word old (one_hot 32 (d % 32))

-- The word that it writes.
abbrev pub replacement : Op → Word → ℕ → Word
replacement take old d = or_word old (one_hot 32 (d % 32))
replacement give old d = and_not old (one_hot 32 (d % 32))

-- Where a caller stands: outside, or between the load and the swap.
pub data Pc : Type 0 where
  idle : Pc
  loaded : Op → ℕ → Word → Pc

-- `grants d` counts the takes of offset `d` that succeeded, less the gives that did.
pub record System : Type 0 where
  pub memory : List Word
  pub pc : ℕ → Pc
  pub grants : ℕ → ℕ

abbrev pub assign {ℓ} : {A : Type ℓ} → (ℕ → A) → ℕ → A → ℕ → A
assign old who new at = ite (ℕ_discrete who at) new (old at)

abbrev pub settle : Op → ℕ → (ℕ → ℕ) → ℕ → ℕ
settle take d g = assign g d (g d + 1)
settle give d g = assign g d (g d - 1)

pub data Step : System → System → Type 0 where
  begin :
      (s : System) (t : ℕ) (op : Op) (d : ℕ) (old : Word)
      → s.pc t ≡ idle
      → load s.memory (pos (d / 32)) ≡ some old
      → Step s (record s { pc = assign s.pc t (loaded op d old) })
  finish :
      (s : System) (t : ℕ) (op : Op) (d : ℕ) (old : Word) (ws : List Word) (done : Bool)
      → s.pc t ≡ loaded op d old
      → compare_and_swap s.memory (pos (d / 32)) (expected op old d) (replacement op old d)
        ≡ some (ws, done)
      → Step s (record {
        memory = ws;
        pc = assign s.pc t idle;
        grants = if done then settle op d s.grants else s.grants;
      })

pub data Reach (s : System) : System → Type 0 where
  here : Reach s s
  next : {t u : System} → Reach s t → Step t u → Reach s u

-- The count of a number is its flag.
pub record Agrees (s : System) : Type 0 where
  pub wide : AllWide s.memory
  pub counted : (d : ℕ) → s.grants d ≡ (if flag s.memory d then 1 else 0)

-- A swap that succeeds turns exactly the flag of its number, and one that fails changes nothing.
record Swapped (op : Op) (d : ℕ) (ws ws' : List Word) (done : Bool) : Type 0 where
  pub wide : AllWide ws'
  pub before : done ≡ true → flag ws d ≡ not (is_take op)
  pub after : (e : ℕ) → flag ws' e ≡ (if done && nat_beq d e then is_take op else flag ws e)

bit-expected :
    (op : Op) (old : Word) (d q : ℕ)
    → length old ≡ 32
    → bit (expected op old d) q ≡ (if nat_beq (d % 32) q then not (is_take op) else bit old q)
bit-expected take old d q h = bit-and_not 32 old (d % 32) q h (omega arith)
bit-expected give old d q h = bit-or 32 old (d % 32) q h (omega arith)

bit-replacement :
    (op : Op) (old : Word) (d q : ℕ)
    → length old ≡ 32
    → bit (replacement op old d) q ≡ (if nat_beq (d % 32) q then is_take op else bit old q)
bit-replacement take old d q h = bit-or 32 old (d % 32) q h (omega arith)
bit-replacement give old d q h = bit-and_not 32 old (d % 32) q h (omega arith)

length-expected : (op : Op) (old : Word) (d : ℕ) → length (expected op old d) ≡ length old
length-expected take old d = length-and_not old _
length-expected give old d = length-or old _

length-replacement : (op : Op) (old : Word) (d : ℕ) → length (replacement op old d) ≡ length old
length-replacement take old d = length-or old _
length-replacement give old d = length-and_not old _

get_elem?-lt {ℓ} :
    {A : Type ℓ} (xs : List A) (i : ℕ) (x : A) → get_elem? xs i ≡ some x → i < length xs
get_elem?-lt [] i x h = absurd (ground arith)
get_elem?-lt (y ∷ xs) zero x h = omega arith
get_elem?-lt (y ∷ xs) (suc i) x h = omega (arith, get_elem?-lt xs i x h)

module _ (op : Op) (d : ℕ) (old : Word) (ws : List Word) (wide : AllWide ws) where
  module _ (w : Word) (found : get_elem? ws (d / 32) ≡ some w) where
    swap_match :
        word_eq w (expected op old d) ≡ true
        → Swapped op d ws (set ws (d / 32) (replacement op old d)) true
    unfolding flag
    swap_match same =
        let at = get_elem?-lt ws (d / 32) w found in
        let (w', found', w_wide) = get_elem?-AllWide ws (d / 32) at wide in
        let w_is : w ≡ expected op old d = word_eq_sound w (expected op old d) same in
        let old_wide : length old ≡ 32 =
          sym (length-expected op old d) ∙ sym (ap length w_is) ∙ ground arith in
        record {
          wide =
              set-AllWide ws (d / 32) (replacement op old d)
                (length-replacement op old d ∙ old_wide) wide;
          before = λ _. ground (arith, found, w_is, bit-expected op old d (d % 32) old_wide);
          after = flag-set ws d w (replacement op old d) (is_take op) at found (λ q.
              bit-replacement op old d q old_wide
              ∙ ground (arith, ap (λ v. bit v q) w_is, bit-expected op old d q old_wide));
        }

    swap_found :
        (ws' : List Word) (done : Bool)
        → compare_and_swap ws (pos (d / 32)) (expected op old d) (replacement op old d)
          ≡ some (ws', done)
        → Swapped op d ws ws' done
    unfolding compare_and_swap
    swap_found ws' done h = elim (Bool-cases (word_eq w (expected op old d))) [
      | inl e ↦
          let ws_is : set ws (d / 32) (replacement op old d) ≡ ws' = ground arith in
          let done_is : true ≡ done = ground arith in
          subst₂ (λ u b. Swapped op d ws u b) ws_is done_is (swap_match e)
      | inr e ↦ record {
        wide = subst AllWide {x = ws} {y = ws'} (ground arith) wide;
        before = λ q. ground arith;
        after = λ n. ground (arith, ap (λ (u : List Word). flag u n) {x = ws} {y = ws'});
      }
    ]

  swap-Swapped :
      (ws' : List Word) (done : Bool)
      → compare_and_swap ws (pos (d / 32)) (expected op old d) (replacement op old d)
        ≡ some (ws', done)
      → Swapped op d ws ws' done
  unfolding compare_and_swap
  swap-Swapped ws' done h = elim (Option-cases (get_elem? ws (d / 32))) [
    | inl e ↦ absurd (ground arith)
    | inr (w, e) ↦ swap_found w e ws' done h
  ]

-- Every step keeps the agreement of counts and flags.
Step-Agrees : {s u : System} → Step s u → Agrees s → Agrees u
Step-Agrees (begin s t op d old p l) a = record { wide = a.wide; counted = a.counted }
Step-Agrees (finish s t op d old ws done p swap) a =
    let w = swap-Swapped op d old s.memory a.wide ws done swap in
    record { wide = w.wide; counted = λ e. counted_after op done w e }
  where
    counted_after :
        (op : Op) (done : Bool)
        → Swapped op d s.memory ws done
        → (e : ℕ)
        → (if done then settle op d s.grants else s.grants) e ≡ (if flag ws e then 1 else 0)
    counted_after take true w e = ground (
      arith,
      w.after e,
      w.before refl,
      a.counted e,
      a.counted d,
      ap (flag s.memory) {x = d} {y = e},
    )
    counted_after give true w e = ground (
      arith,
      w.after e,
      w.before refl,
      a.counted e,
      a.counted d,
      ap (flag s.memory) {x = d} {y = e},
    )
    counted_after op false w e = ground (arith, w.after e, a.counted e)

pub Reach-Agrees : {s u : System} → Reach s u → Agrees s → Agrees u
Reach-Agrees here a = a
Reach-Agrees (next r st) a = Step-Agrees st (Reach-Agrees r a)

-- However the calls of any number of callers interleave, with their loads and compare-and-swaps
-- as separate steps, no number of a pool whose flags count what was given is ever given twice at
-- once, and its flag is up exactly while it is given.
pub exclusive :
    {s u : System} (d : ℕ)
    → Agrees s
    → Reach s u
    → (u.grants d ≤ 1) × ((flag u.memory d ≡ true) ↔ (u.grants d ≡ 1))
exclusive d a r = ground (arith, (Reach-Agrees r a).counted d)
