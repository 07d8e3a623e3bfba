-- ===== src/Router/Controller/Holds.antt =====
-- The loop over the tighten thresholds: what its flags and the elapsed levels mean.
use sloserve.Prelude.{
  ℕ, zero, suc, ◌+◌, ◌-◌, ◌≤◌, ◌<◌, true, false, ◌||◌, Option, some, List, [], ◌∷◌, length,
  get_elem?, Result, ok, >>=-eq-ok, is_ok, ◌≡◌, refl, ap, arith, All, ◌⊎◌, inl, inr,
}
use native.Mathlib.Decide.{dec_lt}
use sloserve.Prelude.{All-map, Bool-cases, ltb}
use sloserve.Float.{Float, ◌≺◌, ◌≼◌, ◌⊖◌}
use sloserve.Router.Controller.{
  AdaptiveClipLevel, int, of_value, bisect_right, Scan, scan, visit, or_now, max_level,
}

pub int-of_value : (n : ℕ) (l : AdaptiveClipLevel) → of_value n ≡ ok l → int l ≡ n
int-of_value zero l h = ground arith
int-of_value (suc zero) l h = ground arith
int-of_value (suc (suc zero)) l h = ground arith
int-of_value (suc (suc (suc zero))) l h = ground arith
int-of_value (suc (suc (suc (suc n)))) l h = absurd (cc)

pub of_value_total : (n : ℕ) → n < 4 → is_ok (of_value n) ≡ true
of_value_total zero h = refl
of_value_total (suc zero) h = refl
of_value_total (suc (suc zero)) h = refl
of_value_total (suc (suc (suc zero))) h = refl
of_value_total (suc (suc (suc (suc n)))) h = absurd (omega arith)

-- A property of every elapsed level is one of the highest.
pub max_level-All {ℓ} :
    (P : AdaptiveClipLevel → Type ℓ) (l : AdaptiveClipLevel) (ls : List AdaptiveClipLevel)
    → P l
    → All P ls
    → P (max_level l ls)
max_level-All P l [] p ps = p
max_level-All P l (m ∷ ms) p ps = elim (Bool-cases (ltb (int l) (int m))) [
  | inl e ↦ rw e (max_level-All P m ms ps.0 ps.1)
  | inr e ↦ rw e (max_level-All P l ms p ps.1)
]

module _ ⦃f : Float⦄ where
  bisect_right-cons :
      (t : f.F) (ts : List f.F) (x : f.F)
      → 0 < bisect_right (t ∷ ts) x
      → ((x ≺ t) ≡ false) × (bisect_right (t ∷ ts) x ≡ suc (bisect_right ts x))
  unfolding bisect_right
  bisect_right-cons t ts x h = ground arith

module _ ⦃f : Float⦄ (now pressure hold : f.F) (current : AdaptiveClipLevel) where
  abbrev run : ℕ → List f.F → List (Option f.F) → Result Scan
  run = scan now pressure hold current

  -- The rounds from level `n` on: one, and those behind it.
  pub scan-inv :
      (n : ℕ) (t : f.F) (ts : List f.F) (s : Option f.F) (ss : List (Option f.F)) (r : Scan)
      → run n (t ∷ ts) (s ∷ ss) ≡ ok r
      → (l : AdaptiveClipLevel) × (rest : Scan) × (int l ≡ n)
        × (run (n + 1) ts ss ≡ ok rest)
        × (visit now pressure hold current l t s rest ≡ r)
  unfolding scan
  scan-inv n t ts s ss r h =
      let (l, e, h₁) = >>=-eq-ok (of_value n) _ h in
      let (rest, e', h₂) = >>=-eq-ok (run (n + 1) ts ss) _ h₁ in
      (l, rest, int-of_value n l e, e', cc)

  pub scan_total :
      (n : ℕ) (ts : List f.F) (ss : List (Option f.F))
      → n + length ts < 5
      → length ts ≡ length ss
      → is_ok (run n ts ss) ≡ true
  unfolding scan
  scan_total n [] ss h e = refl
  scan_total n (t ∷ ts) [] h e = absurd (omega arith)
  scan_total n (t ∷ ts) (s ∷ ss) h e =
      let level = of_value_total n (omega arith) in
      let rest = scan_total (n + 1) ts ss (omega arith) (omega arith) in ground (arith, level, rest)

  visit-since :
      (l : AdaptiveClipLevel) (t : f.F) (s : Option f.F) (rest : Scan)
      → length (visit now pressure hold current l t s rest).since ≡ suc (length rest.since)
  unfolding visit
  visit-since l t s rest = ground arith

  -- The list of the holds keeps its length.
  pub length-scan :
      (n : ℕ) (ts : List f.F) (ss : List (Option f.F)) (r : Scan)
      → run n ts ss ≡ ok r
      → length r.since ≡ length ss
  unfolding scan
  length-scan n [] ss r h = ground arith
  length-scan n (t ∷ ts) [] r h = absurd (cc)
  length-scan n (t ∷ ts) (s ∷ ss) r h =
      let (l, rest, _, e, v) = scan-inv n t ts s ss r h in
      omega (
        arith,
        length-scan (n + 1) ts ss rest e,
        visit-since l t s rest,
        ap (λ (x : Scan). length x.since) v,
      )

  visit-held :
      (l : AdaptiveClipLevel) (t : f.F) (s : Option f.F) (rest : Scan)
      → int current < int l
      → (pressure ≺ t) ≡ false
      → ((visit now pressure hold current l t s rest).started
          || (visit now pressure hold current l t s rest).pending)
        ≡ true
  unfolding visit
  visit-held l t s rest h k = ground arith

  visit-keeps :
      (l : AdaptiveClipLevel) (t : f.F) (s : Option f.F) (rest : Scan)
      → (rest.started || rest.pending) ≡ true
      → ((visit now pressure hold current l t s rest).started
          || (visit now pressure hold current l t s rest).pending)
        ≡ true
  unfolding visit
  visit-keeps l t s rest h = ground arith

  -- Where the pressure asks for a level above the current one, the loop starts or continues a hold.
  pub scan-held :
      (n : ℕ) (ts : List f.F) (ss : List (Option f.F)) (r : Scan)
      → run n ts ss ≡ ok r
      → 0 < bisect_right ts pressure
      → int current + 1 < n + bisect_right ts pressure
      → (r.started || r.pending) ≡ true
  unfolding scan
  scan-held n [] ss r h b k = absurd (unfold bisect_right in omega arith)
  scan-held n (t ∷ ts) [] r h b k = absurd (cc)
  scan-held n (t ∷ ts) (s ∷ ss) r h b k =
      let (l, rest, level, e, v) = scan-inv n t ts s ss r h in
      let below = bisect_right-cons t ts pressure in
      rw (← v) (elim (dec_lt (int current) (int l)) [
        | yes above ↦ visit-held l t s rest above (below (omega arith)).0
        | no under ↦
            let more = (below (omega arith)).1 in
            visit-keeps l t s rest (scan-held (n + 1) ts ss rest e (omega arith) (omega arith))
      ])

  -- A level whose hold has elapsed: above the current one, its threshold reached, and held.
  abbrev pub HasElapsed : ℕ → List f.F → List (Option f.F) → AdaptiveClipLevel → Type 0
  HasElapsed n ts ss l =
      (n ≤ int l)
      × (int current < int l)
      × ((t : f.F) × (get_elem? ts (int l - n) ≡ some t) × ((t ≼ pressure) ≡ true))
      × ((s : Option f.F) × (get_elem? ss (int l - n) ≡ some s)
          × ((hold ≼ now ⊖ or_now s now) ≡ true))

  HasElapsed-next :
      (n : ℕ) (t : f.F) (ts : List f.F) (s : Option f.F) (ss : List (Option f.F))
      (l : AdaptiveClipLevel)
      → HasElapsed (n + 1) ts ss l
      → HasElapsed n (t ∷ ts) (s ∷ ss) l
  HasElapsed-next n t ts s ss l (low, above, (t', e, p), (s', e', q)) =
      let step : int l - n ≡ suc (int l - (n + 1)) = omega arith in
      (omega arith, above, (t', rw step e, p), (s', rw step e', q))

  visit-elapsed :
      (l : AdaptiveClipLevel) (t : f.F) (s : Option f.F) (rest : Scan)
      → ((visit now pressure hold current l t s rest).elapsed ≡ rest.elapsed)
        ⊎ ((visit now pressure hold current l t s rest).elapsed ≡ l ∷ rest.elapsed)
          × (int current < int l)
          × ((t ≼ pressure) ≡ true)
          × ((hold ≼ now ⊖ or_now s now) ≡ true)
  unfolding visit
  visit-elapsed l t s rest = ground arith

  pub scan-HasElapsed :
      (n : ℕ) (ts : List f.F) (ss : List (Option f.F)) (r : Scan)
      → run n ts ss ≡ ok r
      → All (HasElapsed n ts ss) r.elapsed
  unfolding scan
  scan-HasElapsed n [] ss r h = let e : [] ≡ r.elapsed = ground arith in rw (← e) tt
  scan-HasElapsed n (t ∷ ts) [] r h = absurd (cc)
  scan-HasElapsed n (t ∷ ts) (s ∷ ss) r h =
      let (l, rest, level, e, v) = scan-inv n t ts s ss r h in
      let later =
        All-map (HasElapsed-next n t ts s ss) rest.elapsed (scan-HasElapsed (n + 1) ts ss rest e) in
      let first : int l - n ≡ 0 = omega arith in
      rw (← v) (elim (visit-elapsed l t s rest) [
        | inl same ↦ rw same later
        | inr (longer, above, reached, held) ↦
            rw longer
              ((omega arith, above, (t, rw first refl, reached), (s, rw first refl, held)), later)
      ])
