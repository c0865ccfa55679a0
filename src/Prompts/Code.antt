-- ===== src/Prompts/Code.antt =====
-- `read_code` of `src/main.rs`.
use shex.Prelude.{
  Bool, true, false, Bool-cases, not, ◌&&◌, ◌||◌, ◌≡◌, refl, sym, arith, inl, inr, Bytes, eq,
  eq_iff, length, ◌==◌,
}
use shex.Result.{ok, ok-inj}
use shex.Prompts.{entered, read_code}

asked_twice :
    (f t c b : Bool)
    → ((c && t) && (not f && not b)) ≡ false
    → f ≡ false
    → t ≡ true
    → c ≡ true
    → b ≡ true
asked_twice f t c b h piped asked doubled = ground arith

-- A code that is taken is what was entered, is not empty, and was entered twice where a terminal is asked
-- to confirm it.
read_code-ok :
    (force_stdin terminal confirm : Bool) (answer second code : Bytes)
    → read_code force_stdin terminal confirm answer second ≡ ok code
    → (code ≡ entered (force_stdin || not terminal) answer)
      × ((length code == 0) ≡ false)
      × (force_stdin ≡ false → terminal ≡ true → confirm ≡ true → second ≡ code)
unfolding read_code
read_code-ok force_stdin terminal confirm answer second code h =
    let e = entered (force_stdin || not terminal) answer in
    elim (Bool-cases (length e == 0)) [
      | inl empty ↦ absurd (cc (rw empty at h))
      | inr full ↦
          elim (Bool-cases ((confirm && terminal) && (not force_stdin && not (eq e second)))) [
            | inl differ ↦ absurd (cc (rw (full, differ) at h))
            | inr fits ↦
                let same = ok-inj (rw (full, fits) at h) in
                let again = asked_twice force_stdin terminal confirm (eq e second) fits in
                rw (← same) (
                  refl,
                  full,
                  λ piped asked doubled. sym ((eq_iff e second).0 (again piped asked doubled)),
                )
          ]
    ]
