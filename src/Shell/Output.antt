-- ===== src/Shell/Output.antt =====
-- The loop of `ShellSession::run` in `src/server.rs`.
use shex.Prelude.{
  ℕ, zero, suc, ◌+◌, ◌<◌, ◌≤◌, ◌≡◌, ◌≢◌, refl, ap, sym, ◌∙◌, false, true, none, some, [], ◌∷◌, ◌++◌,
  arith, Bytes, codes, length, take, take-length, contains_byte, contains_byte-append, Bool-cases,
  inl, inr, length-append, append_assoc,
}
use shex.Result.{bind-ne, ok, err, fuel_exhausted}
use shex.Shell.{
  Sh, ShellSession, split_line, read_until, completion_in, printed_marker, collect, run, write_line,
  record_separator, unit_separator, output_limit,
}
use shex.Shell.Status.{ℤ, parse_i32}
use shex.Shell.Completion.{completion_in-found, status_at-append}
use shex.Shell.Reading.{split_line-line, cut_line, completion_in-none, find-append}

regroup :
    (out p field x : Bytes)
    → out ++ (p ++ (field ++ unit_separator ∷ x))
      ≡ (out ++ (p ++ (field ++ unit_separator ∷ []))) ++ x
regroup out p field x = simp append_assoc

-- No newline stands in output without one, the marker and the status.
closing_line :
    (ps out field : Bytes)
    → contains_byte b'\n' out ≡ false
    → contains_byte b'\n' (record_separator ∷ ps) ≡ false
    → contains_byte b'\n' field ≡ false
    → contains_byte b'\n' (out ++ ((record_separator ∷ ps) ++ (field ++ unit_separator ∷ [])))
      ≡ false
closing_line ps out field one p f = ground (
  arith,
  contains_byte-append b'\n' out ((record_separator ∷ ps) ++ (field ++ unit_separator ∷ [])),
  contains_byte-append b'\n' ps (field ++ unit_separator ∷ []),
  contains_byte-append b'\n' field (unit_separator ∷ []),
)

-- the last line ends with a newline
ends_line :
    (out ps field : Bytes)
    → contains_byte b'\n'
        (out ++ ((record_separator ∷ ps) ++ (field ++ unit_separator ∷ b'\n' ∷ [])))
      ≡ true
ends_line out ps field = ground (
  arith,
  contains_byte-append b'\n' out
      ((record_separator ∷ ps) ++ (field ++ unit_separator ∷ b'\n' ∷ [])),
  contains_byte-append b'\n' ps (field ++ unit_separator ∷ b'\n' ∷ []),
  contains_byte-append b'\n' field (unit_separator ∷ b'\n' ∷ []),
)

completion_in-closing :
    (ps out field : Bytes) (status : ℤ)
    → contains_byte record_separator out ≡ false
    → contains_byte unit_separator field ≡ false
    → parse_i32 field ≡ some status
    → completion_in
        (out ++ ((record_separator ∷ ps) ++ (field ++ unit_separator ∷ b'\n' ∷ [])))
        (record_separator ∷ ps)
      ≡ some (length out, status)
completion_in-closing ps out field status free unbroken parsed =
    completion_in-found record_separator ps _ out (field ++ unit_separator ∷ b'\n' ∷ [])
      (length out) refl refl (find-append ps out _ free)
    ∙ status_at-append (length out) field (b'\n' ∷ []) unbroken
    ∙ rw parsed

contains_byte-pos : (s : Bytes) → contains_byte b'\n' s ≡ true → 0 < length s
contains_byte-pos [] h = cc
contains_byte-pos (c ∷ s) h = omega arith

module _ (sh : Sh) where
  -- a line that has come whole
  read_until-whole :
      (line rest : Bytes) (s : ShellSession sh)
      → split_line s.output ≡ (line, rest)
      → contains_byte b'\n' line ≡ true
      → read_until sh s ≡ (ok line, record s { output = rest })
  unfolding read_until
  read_until-whole line rest s cut whole = ground arith

  -- one round on a line that is not the last
  collect-line :
      (fuel : ℕ) (prefix collected line rest : Bytes) (s : ShellSession sh)
      → split_line s.output ≡ (line, rest)
      → contains_byte b'\n' line ≡ true
      → completion_in line prefix ≡ none
      → length collected + length line ≤ output_limit
      → collect sh (suc fuel) prefix collected s
        ≡ collect sh fuel prefix (collected ++ line) (record s { output = rest })
  unfolding collect
  collect-line fuel prefix collected line rest s cut whole open_ fits =
      rw (read_until-whole line rest s cut whole)
        (ground (arith, length-append collected line, contains_byte-pos line whole))

  -- the round on the last line
  collect-last :
      (fuel : ℕ) (prefix collected line rest : Bytes) (s : ShellSession sh) (n : ℕ) (status : ℤ)
      → split_line s.output ≡ (line, rest)
      → contains_byte b'\n' line ≡ true
      → completion_in line prefix ≡ some (n, status)
      → collect sh (suc fuel) prefix collected s
        ≡ (ok (collected ++ take n line, status), record s { output = rest })
  unfolding collect
  collect-last fuel prefix collected line rest s n status cut whole closed =
      rw (read_until-whole line rest s cut whole) (ground (arith, contains_byte-pos line whole))

  -- the round on the first of several lines
  collect-first_line :
      (fuel : ℕ) (ps l r tail collected : Bytes) (s : ShellSession sh)
      → contains_byte b'\n' l ≡ false
      → contains_byte record_separator (l ++ b'\n' ∷ r) ≡ false
      → s.output ≡ (l ++ b'\n' ∷ r) ++ tail
      → length collected + length (l ++ b'\n' ∷ r) ≤ output_limit
      → collect sh (suc fuel) (record_separator ∷ ps) collected s
        ≡ collect sh fuel
            (record_separator ∷ ps)
            (collected ++ (l ++ b'\n' ∷ []))
            (record s { output = r ++ tail })
  collect-first_line fuel ps l r tail collected s one free o fits =
      let line = l ++ b'\n' ∷ [] in
      collect-line fuel (record_separator ∷ ps) collected line (r ++ tail) s
        (ap split_line (o ∙ append_assoc l (b'\n' ∷ r) tail) ∙ split_line-line l (r ++ tail) one)
        (ground (arith, contains_byte-append b'\n' l (b'\n' ∷ [])))
        (completion_in-none ps line (
          ground (
            arith,
            contains_byte-append record_separator l (b'\n' ∷ r),
            contains_byte-append record_separator l (b'\n' ∷ []),
          )))
        (omega (arith, length-append l (b'\n' ∷ []), length-append l (b'\n' ∷ r)))

  -- the round on output that ends in no newline, and the marker
  collect-closing :
      (fuel : ℕ) (ps out field later collected : Bytes) (status : ℤ) (s : ShellSession sh)
      → contains_byte record_separator out ≡ false
      → contains_byte b'\n' out ≡ false
      → contains_byte b'\n' (record_separator ∷ ps) ≡ false
      → contains_byte b'\n' field ≡ false
      → contains_byte unit_separator field ≡ false
      → parse_i32 field ≡ some status
      → s.output ≡ out ++ ((record_separator ∷ ps) ++ (field ++ unit_separator ∷ b'\n' ∷ later))
      → collect sh (suc fuel) (record_separator ∷ ps) collected s
        ≡ (ok (collected ++ out, status), record s { output = later })
  collect-closing fuel ps out field later collected status s free one p f unbroken parsed o =
      let tail = (record_separator ∷ ps) ++ (field ++ unit_separator ∷ b'\n' ∷ []) in
      collect-last fuel (record_separator ∷ ps) collected (out ++ tail) later s (length out) status
        (ap split_line (o ∙ regroup out (record_separator ∷ ps) field (b'\n' ∷ later))
          ∙ split_line-line (out ++ ((record_separator ∷ ps) ++ (field ++ unit_separator ∷ [])))
              later (closing_line ps out field one p f)
          ∙ ap (λ (t : Bytes). (t, later))
              (sym (regroup out (record_separator ∷ ps) field (b'\n' ∷ []))))
        (ends_line out ps field) (completion_in-closing ps out field status free unbroken parsed)
      ∙ rw (take-length out tail)

  -- With output, a marker and a status waiting, the loop returns the output and the status.
  collect-output :
      (fuel : ℕ) (ps out field later collected : Bytes) (status : ℤ) (s : ShellSession sh)
      → contains_byte record_separator out ≡ false
      → contains_byte b'\n' (record_separator ∷ ps) ≡ false
      → contains_byte b'\n' field ≡ false
      → contains_byte unit_separator field ≡ false
      → parse_i32 field ≡ some status
      → s.output ≡ out ++ ((record_separator ∷ ps) ++ (field ++ unit_separator ∷ b'\n' ∷ later))
      → length collected + length out ≤ output_limit
      → length out < fuel
      → collect sh fuel (record_separator ∷ ps) collected s
        ≡ (ok (collected ++ out, status), record s { output = later })
  collect-output zero ps out field later collected status s free p f unbroken parsed o fits l =
      absurd (omega arith)
  collect-output (suc fuel) ps out field later collected status s free p f unbroken parsed o fits
        l =
      elim (Bool-cases (contains_byte b'\n' out)) [
        | inr last ↦
            collect-closing fuel ps out field later collected status s free last p f unbroken parsed
              o
        | inl lines ↦
            let (first, r, splits, one) = cut_line out lines in
            let line = first ++ b'\n' ∷ [] in
            let tail = (record_separator ∷ ps) ++ (field ++ unit_separator ∷ b'\n' ∷ later) in
            let free' = rw splits at free in
            let fits' = rw splits at fits in
            let l' = rw splits at l in
            collect-first_line fuel ps first r tail collected s one free' (rw splits at o) fits'
            ∙ collect-output fuel ps r field later (collected ++ line) status
                (record s { output = r ++ tail })
                (ground (arith, contains_byte-append record_separator first (b'\n' ∷ r))) p f
                unbroken parsed refl
                (omega (
                  arith,
                  length-append collected line,
                  length-append first (b'\n' ∷ []),
                  length-append first (b'\n' ∷ r),
                ))
                (omega (arith, length-append first (b'\n' ∷ r)))
            ∙ rw (splits, append_assoc, append_assoc)
      ]

  collect-total :
      (fuel : ℕ) (prefix collected : Bytes) (s : ShellSession sh)
      → length collected ≤ output_limit
      → output_limit < fuel + length collected
      → (collect sh fuel prefix collected s).0 ≢ err fuel_exhausted
  unfolding collect read_until
  collect-total zero prefix collected s short enough = absurd (omega arith)
  collect-total (suc fuel) prefix collected s short enough =
      let line = (split_line s.output).0 in
      ground (
        arith,
        length-append collected line,
        collect-total fuel prefix (collected ++ line)
            (record s { output = (split_line s.output).1 }),
      )

  -- What `sh` answers to a command and to the marker that follows it: `out`, then the marker and
  -- the status `field` as `printf` writes them.
  pub record Answers (marker command : Bytes) (s : ShellSession sh) (out field later : Bytes)
      : Type 0 where
    pub middle : ShellSession sh
    pub last : ShellSession sh
    pub sent_command : write_line sh command s ≡ (ok tt, middle)
    pub sent_marker : write_line sh (printed_marker marker) middle ≡ (ok tt, last)
    pub waiting :
        last.output
        ≡ out
          ++ ((record_separator ∷ (marker ++ codes ":"))
              ++ (field ++ unit_separator ∷ b'\n' ∷ later))

  -- When the shell answers a command with some output, which has no record separator and is not too
  -- long, and then the marker's line with a status, `run` returns that output, with nothing of the
  -- marker in it, and that status, and what the shell has printed later is still to be read.
  pub run-output :
      (lossy : Bytes → Bytes) (marker command out field later : Bytes) (status : ℤ)
      (s : ShellSession sh)
      → (answers : Answers marker command s out field later)
      → contains_byte record_separator out ≡ false
      → contains_byte b'\n' marker ≡ false
      → contains_byte b'\n' field ≡ false
      → contains_byte unit_separator field ≡ false
      → parse_i32 field ≡ some status
      → length out ≤ output_limit
      → run sh lossy marker command s
        ≡ (ok (lossy out, status), record answers.last { output = later })
  unfolding run
  run-output lossy marker command out field later status s answers free m f unbroken parsed fits =
      rw (
        answers.sent_command,
        answers.sent_marker,
        collect-output (output_limit + 2) (marker ++ codes ":") out field later [] status
            answers.last free (ground (arith, contains_byte-append b'\n' marker (codes ":"))) f
            unbroken parsed answers.waiting (omega arith) (omega arith),
      )

  write_line-total :
      (text : Bytes) (s : ShellSession sh) → (write_line sh text s).0 ≢ err fuel_exhausted
  unfolding write_line
  write_line-total text s = ground arith

  -- Whatever the shell does, `run` goes through no more rounds than it is given, one for each byte
  -- of the bound: it ends with a result or an error, or waits in a round for a line that never
  -- ends.
  pub run-total :
      (lossy : Bytes → Bytes) (marker command : Bytes) (s : ShellSession sh)
      → (run sh lossy marker command s).0 ≢ err fuel_exhausted
  unfolding run
  run-total lossy marker command = bind-ne (write_line sh command) _ (write_line-total command) λ _.
      bind-ne (write_line sh (printed_marker marker)) _ (write_line-total (printed_marker marker))
        λ _.
          bind-ne (collect sh (output_limit + 2) (record_separator ∷ (marker ++ codes ":")) []) _
            (λ s.
              collect-total (output_limit + 2) (record_separator ∷ (marker ++ codes ":")) [] s
                (omega arith) (omega arith))
            λ found s. cc
