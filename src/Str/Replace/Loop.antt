-- ===== src/Str/Replace/Loop.antt =====
-- An invariant rule for the loops of `cg_string_replace`, which also shows that they end.
use dlna.Prelude.{
  ℕ, zero, suc, ◌+◌, ◌*◌, ◌≤◌, ◌<◌, ◌⊎◌, ◌≡◌, ◌≢◌, refl, ap, ◌∙◌, true, false, Option, none, some,
  [], ◌∷◌, ◌++◌, arith, Bytes, length, drop, drop-length_append, length-append, All, Bool-cases,
  inl, inr,
}
use dlna.Text.Compare.{strncmp-eq_prefix}
use dlna.Text.Search.Find.{Lacks}
use dlna.Str.{Memory, CgString, cg_string_new, cg_string_addvalue, cg_string_setvalue}
use dlna.Str.Value.{
  text_of, text, IsValid, Succeeds, addvalue-text, addvalue-IsValid, naddvalue-text,
  naddvalue-IsValid, setvalue-text,
}
use dlna.Str.Replace.{Table, Progress, begins, sweep, replace_loop, cg_string_replace}

-- no entry can be replaced here
abbrev pub Misses : Table → Bytes → Type 0
Misses table rest = All (λ (from, to). begins from rest ≡ false) table

-- No text to replace is empty, and no new one holds a byte 0.
abbrev pub IsProper : Table → Type 0
IsProper = All (λ (from, to). (from ≢ []) × Lacks 0 to)

-- What a replacement and a copied byte keep true of the rest of the text and of the output.
pub record IsInvariant (table : Table) (R : Bytes → Bytes → Type 0) : Type 0 where
  pub hit : All (λ (from, to). (r out : Bytes) → R (from ++ r) out → R r (out ++ to)) table
  pub miss : (c : ℕ) (r out : Bytes) → Misses table (c ∷ r) → R (c ∷ r) out → R r (out ++ c ∷ [])

-- What `cg_string_replace` leaves in the string when the new text is `out`: that text, or, if
-- nothing was put in for the old one, still the old text.
abbrev pub Replaced : CgString → Bytes → CgString → Type 0
Replaced str out str' =
    (out ≢ [] → str'.value ≡ some out) × (out ≡ [] → str'.value ≡ some [] ⊎ str' ≡ str)

module _ (mem : Memory) (ok : Succeeds mem) (R : Bytes → Bytes → Type 0) where
  record Holds (st : Progress) : Type 0 where
    valid : IsValid st.rep
    inv : R st.rest (text st.rep)

  record Swept (table : Table) (st st' : Progress) : Type 0 where
    holds : Holds st'
    le : length st'.rest ≤ length st.rest
    shorter : st.replaced ≡ false → st'.replaced ≡ true → length st'.rest < length st.rest
    still : st'.replaced ≡ false → (st' ≡ st) × Misses table st.rest

  -- the state behind a match
  try_one-Holds :
      (from to r : Bytes) (st : Progress)
      → ((r out : Bytes) → R (from ++ r) out → R r (out ++ to))
      → st.rest ≡ from ++ r
      → Lacks 0 to
      → Holds st
      → Holds (record {
        rest = drop (length from) st.rest;
        rep = (cg_string_addvalue mem st.rep (some to)).0;
        replaced = true;
      })
  try_one-Holds from to r st keep e lacks h = record {
    valid = addvalue-IsValid mem ok st.rep (some to) h.valid;
    inv =
        rw (addvalue-text mem ok st.rep (some to) h.valid lacks, e, drop-length_append from r)
          (keep r (text st.rep) (rw e at h.inv));
  }

  length_pos : (b : Bytes) → b ≢ [] → 0 < length b
  length_pos [] h = absurd (h refl)
  length_pos (x ∷ b) h = omega arith

  -- A match before the rest of the sweep.
  sweep_hit :
      {table table' : Table} {rep : CgString} {st' : Progress} (st : Progress) (from r : Bytes)
      → from ≢ []
      → st.rest ≡ from ++ r
      → Swept table (record { rest = drop (length from) st.rest; rep = rep; replaced = true }) st'
      → Swept table' st st'
  sweep_hit {rep} st from r ne e rec =
      let cut : length (drop (length from) st.rest) < length st.rest =
        rw (e, drop-length_append from r)
          (omega (arith, length-append from r, length_pos from ne)) in
      record {
        holds = rec.holds;
        le = omega (arith, rec.le);
        shorter = λ p q. omega (arith, rec.le);
        still = λ p. absurd (reset (rec.still p).0 p);
      }
    where
      reset :
          {rest : Bytes} {st' : Progress}
          → st' ≡ record { rest = rest; rep = rep; replaced = true }
          → st'.replaced ≡ false
          → ⊥
      reset same p = ground arith

  sweep-Swept :
      (table : Table) (st : Progress)
      → IsProper table
      → All (λ (from, to). (r out : Bytes) → R (from ++ r) out → R r (out ++ to)) table
      → Holds st
      → Swept table st (sweep mem table st)
  unfolding sweep
  sweep-Swept [] st ne keep h = record {
    holds = h;
    le = omega arith;
    shorter = λ p q. absurd (cc);
    still = λ p. (refl, tt);
  }
  sweep-Swept ((from, to) ∷ table) st ((ne, lacks), nes) (keep, keeps) h =
      elim (Bool-cases (begins from st.rest)) [
        | inl hit ↦
            let (r, e) = strncmp-eq_prefix from st.rest hit in
            rw hit (
              sweep_hit st from r ne e
                (sweep-Swept table _ nes keeps (try_one-Holds from to r st keep e lacks h)))
        | inr miss ↦ rw miss (
            let rec = sweep-Swept table st nes keeps h in
            record {
              holds = rec.holds;
              le = rec.le;
              shorter = rec.shorter;
              still = λ p. let (same, all) = rec.still p in (same, (miss, all));
            })
      ]

  -- With more fuel than bytes the loop ends, and the invariant holds of its output.
  replace_loop-Ends :
      (table : Table) (fuel : ℕ) (rest : Bytes) (rep : CgString)
      → IsProper table
      → IsInvariant table R
      → length rest < fuel
      → IsValid rep
      → R rest (text rep)
      → (rep' : CgString) × (replace_loop mem table fuel rest rep ≡ some rep') × R [] (text rep')
  unfolding replace_loop
  replace_loop-Ends table zero rest rep ne is lt v r = absurd (omega arith)
  replace_loop-Ends table (suc fuel) [] rep ne is lt v r = (rep, refl, r)
  replace_loop-Ends table (suc fuel) (c ∷ rest) rep ne is lt v r =
      let st : Progress = record { rest = c ∷ rest; rep = rep; replaced = false } in
      let swept = sweep-Swept table st ne is.hit (record { valid = v; inv = r }) in
      elim (Bool-cases (sweep mem table st).replaced) [
        | inl replaced ↦ rw replaced (
            replace_loop-Ends table fuel _ _ ne is (omega (arith, swept.shorter refl replaced))
              swept.holds.valid swept.holds.inv)
        | inr not_replaced ↦ rw not_replaced (
            replace_loop-Ends table fuel rest _ ne is (omega arith)
              (naddvalue-IsValid mem ok rep (c ∷ rest) 1 v (omega arith))
              (rw (naddvalue-text mem ok rep (c ∷ rest) 1 v)
                (is.miss c rest (text rep) (swept.still not_replaced).1 r)))
      ]

  store-Replaced :
      (str : CgString) (v : Option Bytes)
      → Lacks 0 (text_of v)
      → Replaced str (text_of v) (cg_string_setvalue mem str v)
  store-Replaced str none lacks =
      (λ h. absurd (h refl), λ _. inr (unfold cg_string_setvalue in refl))
  store-Replaced str (some b) lacks =
      let stored = setvalue-text mem ok str b lacks in (λ _. stored, λ e. inl (stored ∙ ap some e))

  -- `cg_string_replace` comes to an end, and its result satisfies every invariant of its loops. It
  -- is stored whole if it holds no byte 0.
  pub cg_string_replace-Ends :
      (str : CgString) (table : Table)
      → IsProper table
      → IsInvariant table R
      → R (text str) []
      → (str' : CgString) × (out : Bytes) × (cg_string_replace mem str table
          ≡ some (str', str'.value))
        × R [] out
        × (Lacks 0 out → Replaced str out str')
  unfolding cg_string_replace cg_string_new
  cg_string_replace-Ends str table ne is r =
      let (rep, e, last) =
        replace_loop-Ends table (length (text str) + 1) (text str) cg_string_new ne is (omega arith)
          refl r in
      (
        cg_string_setvalue mem str rep.value,
        text rep,
        rw (ok (4 * length table), e) refl,
        last,
        store-Replaced str rep.value,
      )
