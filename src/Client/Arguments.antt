-- ===== src/Client/Arguments.antt =====
-- `split_exec_args` and the exit code of `execute` in `src/main.rs`.
use shex.Prelude.{
  ◌≡◌, ◌≢◌, ◌⊎◌, inl, inr, refl, ap, ℕ, zero, suc, ◌≤◌, Bool, true, false, not, Bool-cases, Option,
  none, some, is_some, List, [], ◌∷◌, ◌++◌, Bytes, codes, eq, eq_iff, arith,
}
use shex.Result.{ok}
use shex.Shell.Status.{ℤ, pos, negsuc}
use shex.Client.{split_exec_args, after_hostname, without_dashes, exit_code}

-- the arguments that name the host
abbrev pub host_args : Option Bytes → List Bytes
host_args none = []
host_args (some hostname) = hostname ∷ []

command-ok :
    (host : Option Bytes) (args : List Bytes) {hostname : Option Bytes} {command : List Bytes}
    → after_hostname host args ≡ ok (hostname, command)
    → (hostname ≡ host) × (command ≢ []) × (args ≡ command)
command-ok host [] h = absurd (cc)
command-ok host (arg ∷ args) h = (cc, λ e. cc, cc)

behind :
    (host : Option Bytes) (args : List Bytes) {hostname : Option Bytes} {command : List Bytes}
    → after_hostname host (without_dashes args) ≡ ok (hostname, command)
    → (hostname ≡ host) × (command ≢ []) × ((args ≡ command) ⊎ (args ≡ codes "--" ∷ command))
behind host [] h = absurd (cc)
behind host (arg ∷ args) h = elim (Bool-cases (eq arg (codes "--"))) [
  | inl dashes ↦
      let (same, some_command, written) = command-ok host args (rw dashes at h) in
      (same, some_command, inr (rw ((eq_iff arg (codes "--")).0 dashes, written) refl))
  | inr other ↦
      let (same, some_command, written) = command-ok host (arg ∷ args) (rw other at h) in
      (same, some_command, inl written)
]

-- What `exec` runs is not empty and is what the user wrote behind the host name and at most one
-- `--`; the host name is taken from the arguments just when there is no auth file.
split_exec_args-ok :
    (args : List Bytes) (explicit_auth_file : Bool) {hostname : Option Bytes} {command : List Bytes}
    → split_exec_args args explicit_auth_file ≡ ok (hostname, command)
    → (command ≢ [])
      × (is_some hostname ≡ not explicit_auth_file)
      × ((args ≡ host_args hostname ++ command)
          ⊎ (args ≡ host_args hostname ++ codes "--" ∷ command))
unfolding split_exec_args
split_exec_args-ok args true h =
    let (same, some_command, written) = behind none args h in
    (some_command, rw same refl, rw same written)
split_exec_args-ok [] false h = absurd (cc)
split_exec_args-ok (hostname ∷ []) false h = absurd (cc)
split_exec_args-ok (hostname ∷ arg ∷ args) false h =
    let (same, some_command, written) = behind (some hostname) (arg ∷ args) h in
    (
      some_command,
      rw same refl,
      rw same (elim written [
        | inl all ↦ inl (ap (λ xs. hostname ∷ xs) all)
        | inr dashed ↦ inr (ap (λ xs. hostname ∷ xs) dashed)
      ]),
    )

-- The process exits with a code of its own just when the status is not zero; the code is never zero and
-- fits in a byte.
pub exit_code-range :
    (status : ℤ) {code : ℕ} → exit_code status ≡ some code → (1 ≤ code) × (code ≤ 255)
exit_code-range (pos zero) h = ground arith
exit_code-range (pos (suc n)) h = ground arith
exit_code-range (negsuc n) h = ground arith
