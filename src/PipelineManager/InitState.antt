-- ===== src/PipelineManager/InitState.antt =====
-- pkg/pipelinemanager/pipelinemanager.go: the statuses of a job's jobs before the PipelineRun is reflected, and which of
-- them count as changed. A job of the specification is its name.
use cicd_operator.Base.{
  if◌then◌else◌, nat_beq, nat_eq, length, take, replicate, length-append, length-replicate, Str,
  str_eq, ℕ, zero, suc, ◌*◌, ◌≡◌, refl, ap, Bool, false, not, none, List, [], ◌∷◌, ◌++◌, arith,
}
use cicd_operator.Api.{RunStatus}
use cicd_operator.Git.{pending}

unfoldable pub pending_status : Str → RunStatus
pending_status name = record {
  name = name;
  start_time = none;
  completion_time = none;
  state = pending;
  message = [];
  pod_name = [];
}

unfoldable pub init_status : List Str → List RunStatus
init_status [] = []
init_status (name ∷ jobs) = pending_status name ∷ init_status jobs

-- The flags and the statuses that `initState` leaves. `make` gives the first flags, `append` adds to them.
unfoldable pub init_state : List Str → List RunStatus → List Bool × List RunStatus
unfolding init_status
init_state jobs statuses =
    let reset = not (nat_beq (length statuses) (length jobs)) in
    (
      replicate (length jobs) false ++ replicate (length jobs) reset,
      if reset then init_status jobs else statuses,
    )

length-init_status : (jobs : List Str) → length (init_status jobs) ≡ length jobs
unfolding init_status
length-init_status [] = refl
length-init_status (name ∷ jobs) = ap suc (length-init_status jobs)

take-replicate_append :
    (n : ℕ) (b : Bool) (l : List Bool) → take n (replicate n b ++ l) ≡ replicate n b
take-replicate_append zero b l = refl
take-replicate_append (suc n) b l = ap (λ r. b ∷ r) (take-replicate_append n b l)

-- There is a status for each job afterwards, but twice as many flags, and the flag at each job's
-- index says that nothing changed, also where the statuses were reset.
pub init_state_flags :
    (jobs : List Str) (statuses : List RunStatus)
    → (length (init_state jobs statuses).1 ≡ length jobs)
      × (length (init_state jobs statuses).0 ≡ 2 * length jobs)
      × (take (length jobs) (init_state jobs statuses).0 ≡ replicate (length jobs) false)
unfolding init_state
init_state_flags jobs statuses =
    let reset = not (nat_beq (length statuses) (length jobs)) in
    (
      ground (arith, length-init_status jobs),
      ground (
        arith,
        length-append (replicate (length jobs) false) (replicate (length jobs) reset),
        length-replicate (length jobs) false,
        length-replicate (length jobs) reset,
      ),
      take-replicate_append (length jobs) false (replicate (length jobs) reset),
    )
