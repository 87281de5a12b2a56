-- ===== src/State/Interpretation/Keys.antt =====
-- What the key of an interpreted observation is made of.
use mind_runtime.Base.{
  ℕ, String, ◌≡◌, refl, sym, ap, ◌∙◌, inl, inr, Bool, true, false, not, ◌&&◌, Option, some, ◌∷◌,
  ◌++◌, if◌then◌else◌, Bool-cases, Option-cases, ◌==◌, nat_eq, string_eq, option_eq, list_eq, codes,
  rpartition, nat_eqb, nat_eqb_iff, and_true,
}
use mind_runtime.State.Interpretation.{
  StateIntent, Observation, is_dimension, suffix_lifecycle, interpret_observation,
}
use mind_runtime.State.Lifecycle.{StateLifecycle}
use Prim.Native.Char.{Char, code}

-- The parts around the last separator make the text up.
abbrev Joins : ℕ → String → String × Bool × String → Type 0
Joins d s (before, found, after) = found ≡ true → codes s ≡ codes before ++ (d ∷ codes after)

join_base :
    (d : ℕ) (c : Char) (s : String) (b : Bool)
    → nat_eqb (code c) d ≡ b
    → Joins d (String.◌∷◌ c s) (if b then ("", true, s) else ("", false, String.◌∷◌ c s))
join_base d c s true same e = ap (λ k. k ∷ codes s) ((nat_eqb_iff (code c) d).0 same)
join_base d c s false other e = cc

join_step :
    (d : ℕ) (c : Char) (s : String) (p : String × Bool × String)
    → Joins d s p
    → Joins d (String.◌∷◌ c s) (
        if p.1
        then (String.◌∷◌ c p.0, true, p.2)
        else if nat_eqb (code c) d
        then ("", true, s)
        else ("", false, String.◌∷◌ c s))
join_step d c s (before, true, after) h e = ap (◌∷◌ (code c)) (h refl)
join_step d c s (before, false, after) h e = join_base d c s (nat_eqb (code c) d) refl e

rpartition-join : (d : ℕ) (s : String) → Joins d s (rpartition d s)
unfolding rpartition
rpartition-join d String.[] = λ h. cc
rpartition-join d (String.◌∷◌ c s) = join_step d c s (rpartition d s) (rpartition-join d s)

module _ {V : Type 0} where
  abbrev intent_of : Observation V → String → Option StateLifecycle → StateIntent V
  intent_of o dimension lifecycle = record {
    dimension = dimension;
    value = o.value;
    observed_at = o.observed_at;
    scope = o.scope;
    origin_runtime_id = o.origin_runtime_id;
    evidence_refs = o.evidence_refs;
    lifecycle = lifecycle;
  }

  -- An observation that is read as an intent has a key that is the intent's dimension, a dot and a
  -- suffix that stands for the intent's lifecycle; the intent has the observation's value, time,
  -- scope, origin and evidence.
  pub interpret_observation_lem :
      (o : Observation V) (i : StateIntent V)
      → interpret_observation o ≡ some i
      → (suffix : String) × (codes o.key ≡ codes i.dimension ++ (b'.' ∷ codes suffix))
        × (suffix_lifecycle suffix ≡ some i.lifecycle)
        × (i.value ≡ o.value)
        × (i.observed_at ≡ o.observed_at)
        × (i.scope ≡ o.scope)
        × (i.origin_runtime_id ≡ o.origin_runtime_id)
        × (i.evidence_refs ≡ o.evidence_refs)
  unfolding interpret_observation
  interpret_observation_lem o i h =
      let p = rpartition b'.' o.key in
      elim (Option-cases (suffix_lifecycle p.2)) [
        | inl unknown ↦ let no : ⊥ = cc in elim no [ ]
        | inr (l, known) ↦ elim (Bool-cases (p.1 && not (p.0 == "") && is_dimension p.0)) [
          | inl good ↦
              let same : some (intent_of o p.0 l) ≡ some i =
                rw (known, good, interpret_observation) at h in
              let it : intent_of o p.0 l ≡ i = cc in
              (
                p.2,
                rw (← it) (rpartition-join b'.' o.key (and_true (and_true good).0).0),
                known ∙ ap (λ j. some j.lifecycle) it,
                ap (λ j. j.value) (sym it),
                ap (λ j. j.observed_at) (sym it),
                ap (λ j. j.scope) (sym it),
                ap (λ j. j.origin_runtime_id) (sym it),
                ap (λ j. j.evidence_refs) (sym it),
              )
          | inr bad ↦ let no : ⊥ = cc in elim no [ ]
        ]
      ]
