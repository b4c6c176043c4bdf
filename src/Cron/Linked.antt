-- ===== src/Cron/Linked.antt =====
-- pkg/cron/cron.go: the jobs, and the entries of the cron library that were made for them.
use cicd_operator.Base.{
  Bool-cases, Option-cases, ◌==◌, nat_eq, ==_iff, In-filterb_iff, filterb, In, All, Str, str,
  str_eq, has_prefix, get, del, get-put, get-del, ℕ, ◌≡◌, refl, sym, ap, ◌∙◌, ◌≢◌, inl, inr, true,
  not, none, some, List, [], ◌∷◌, ◌++◌, arith,
}
use mathlib.Core.Path.{subst}
use cicd_operator.Api.{Periodic}
use cicd_operator.Cron.{
  Added, added, refused, Agent, CronJob, Cron, remove_job, register, add_job,
  sync_integration_config,
}
use cicd_operator.Cron.Preserved.{sync-preserves}

abbrev Entry : Type 0
Entry = ℕ × Str × Str

-- No two entries have one id.
abbrev pub UniqueIds : List Entry → Type 0
UniqueIds [] = Unit {0}
UniqueIds (e ∷ l) = All (λ x. x.0 ≢ e.0) l × UniqueIds l

All-In : (P : Entry → Type 0) (l : List Entry) (a : Entry) → All P l → In a l → P a
All-In P [] a h m = absurd m
All-In P (x ∷ l) a (p, h) (inl e) = subst P (sym e) p
All-In P (x ∷ l) a (p, h) (inr m) = All-In P l a h m

pub unique_id : (l : List Entry) (a b : Entry) → UniqueIds l → In a l → In b l → a.0 ≡ b.0 → a ≡ b
unique_id [] a b u m n e = absurd m
unique_id (x ∷ l) a b (f, u) (inl p) (inl q) e = p ∙ sym q
unique_id (x ∷ l) a b (f, u) (inl p) (inr n) e =
    absurd (All-In (λ z. z.0 ≢ x.0) l b f n (sym e ∙ ap (λ z. z.0) p))
unique_id (x ∷ l) a b (f, u) (inr m) (inl q) e =
    absurd (All-In (λ z. z.0 ≢ x.0) l a f m (e ∙ ap (λ z. z.0) q))
unique_id (x ∷ l) a b (f, u) (inr m) (inr n) e = unique_id l a b u m n e

All-filterb :
    (P : Entry → Type 0) (keep : Entry → _) (l : List Entry) → All P l → All P (filterb keep l)
All-filterb P keep [] h = tt
All-filterb P keep (x ∷ l) (p, h) = elim (Bool-cases (keep x)) [
  | inl t ↦ rw (t, filterb) (p, All-filterb P keep l h)
  | inr f ↦ rw (f, filterb) (All-filterb P keep l h)
]

UniqueIds-filterb : (keep : Entry → _) (l : List Entry) → UniqueIds l → UniqueIds (filterb keep l)
UniqueIds-filterb keep [] u = tt
UniqueIds-filterb keep (x ∷ l) (f, u) = elim (Bool-cases (keep x)) [
  | inl t ↦ rw (t, filterb) (All-filterb (λ z. z.0 ≢ x.0) keep l f, UniqueIds-filterb keep l u)
  | inr g ↦ rw (g, filterb) (UniqueIds-filterb keep l u)
]

module _ {State : Type 0} (agent : Agent State) where
  -- The entry of a job, with its cron string in the time zone UTC.
  abbrev pub entry_of : Str → CronJob → Entry
  entry_of name j = (j.entry_id, str "TZ=UTC " ++ j.cron_str, name)

  -- Each job has its entry, and no other entry has its id.
  abbrev pub IsLinked : Cron State → Type 0
  IsLinked c =
      UniqueIds (agent.entries c.cron_agent)
      × ((name : Str) (j : CronJob)
          → get name c.jobs ≡ some j
          → In (entry_of name j) (agent.entries c.cron_agent))

  absent : (name : Str) (c : Cron State) → get name c.jobs ≡ none → (remove_job agent name c).1 ≡ c
  unfolding remove_job
  absent name c n = ground (arith, n)

  abbrev removed : Str → CronJob → Cron State → Cron State
  removed name j c = record {
    cron_agent = agent.remove j.entry_id c.cron_agent;
    jobs = del name c.jobs;
  }

  present :
      (name : Str) (c : Cron State) (j : CronJob)
      → get name c.jobs ≡ some j
      → (remove_job agent name c).1 ≡ removed name j c
  unfolding remove_job
  present name c j q = ground (arith, q)

  -- An entry of another job stays.
  stays :
      (name k : Str) (c : Cron State) (j i : CronJob)
      → IsLinked c
      → get name c.jobs ≡ some j
      → get k (removed name j c).jobs ≡ some i
      → In (entry_of k i) (agent.entries (removed name j c).cron_agent)
  stays name k c j i (u, v) q r = elim (Bool-cases (name == k)) [
    | inl t ↦ ground (arith, t, r, get-del name k c.jobs)
    | inr f ↦
        let there : get k c.jobs ≡ some i = ground (arith, f, r, get-del name k c.jobs) in
        let kept : not (i.entry_id == j.entry_id) ≡ true =
          elim (Bool-cases (i.entry_id == j.entry_id)) [
            | inr n ↦ ap not n
            | inl s ↦
                let same =
                  unique_id (agent.entries c.cron_agent) (entry_of k i) (entry_of name j) u
                    (v k i there) (v name j q) ((==_iff i.entry_id j.entry_id).0 s) in
                ground (arith, f, (==_iff name k).1 (sym (ap (λ z. z.2) same)))
          ] in
        subst (In (entry_of k i)) (sym (agent.entries-remove j.entry_id c.cron_agent)) (
          (In-filterb_iff (λ (x : Entry). not (x.0 == j.entry_id)) (entry_of k i)
              (agent.entries c.cron_agent)).1
            (v k i there, kept))
  ]

  remove_job-IsLinked :
      (name : Str) (c : Cron State) → IsLinked c → IsLinked (remove_job agent name c).1
  remove_job-IsLinked name c v = elim (Option-cases (get name c.jobs)) [
    | inl n ↦ subst IsLinked (sym (absent name c n)) v
    | inr (j, q) ↦ subst IsLinked (sym (present name c j q)) (
      subst UniqueIds (sym (agent.entries-remove j.entry_id c.cron_agent))
          (UniqueIds-filterb (λ (x : Entry). not (x.0 == j.entry_id)) _ v.0),
      λ k i r. stays name k c j i v q r,
    )
  ]

  added-IsLinked :
      (name cron : Str) (c : Cron State) (r : Added)
      → (agent.add_func (str "TZ=UTC " ++ cron) name c.cron_agent).0 ≡ r
      → IsLinked c
      → IsLinked
          (register agent name cron r
            (agent.add_func (str "TZ=UTC " ++ cron) name c.cron_agent).1
            c.jobs).1
  unfolding register
  added-IsLinked name cron c (refused text) e (u, v) =
      let same = sym (agent.entries-refused (str "TZ=UTC " ++ cron) name c.cron_agent text e) in
      (subst UniqueIds same u, λ k i q. subst (In (entry_of k i)) same (v k i q))
  added-IsLinked name cron c (added id) e (u, v) =
      let (entries, fresh) = agent.entries-added (str "TZ=UTC " ++ cron) name c.cron_agent id e in
      let job : CronJob = record {
        entry_id = id;
        triggered = has_prefix cron (str "@every");
        cron_str = cron;
      } in
      (
        subst UniqueIds (sym entries) (fresh, u),
        λ k i q. subst (In (entry_of k i)) (sym entries) (elim (Bool-cases (name == k)) [
          | inl t ↦
              let here : some job ≡ some i =
                sym (get-put name k job c.jobs ∙ ground (arith, t)) ∙ q in
              let same : job ≡ i = ground (arith, here) in
              inl (
                subst (λ z. entry_of k i ≡ entry_of z job) (sym ((==_iff name k).0 t))
                  (ap (entry_of k) (sym same)))
          | inr f ↦ inr (v k i (sym (get-put name k job c.jobs ∙ ground (arith, f)) ∙ q))
        ]),
      )

  add_job-IsLinked :
      (name cron : Str) (c : Cron State)
      → get name c.jobs ≡ none
      → IsLinked c
      → IsLinked (add_job agent name cron c).1
  unfolding add_job
  add_job-IsLinked name cron c n v =
      added-IsLinked name cron c (agent.add_func (str "TZ=UTC " ++ cron) name c.cron_agent).0 refl v

  -- A synchronisation with any periodic jobs, also one that ends with errors, leaves each job with its entry.
  pub sync-IsLinked :
      (l : List Periodic) (c : Cron State)
      → IsLinked c
      → IsLinked (sync_integration_config agent l c).1
  sync-IsLinked = sync-preserves agent IsLinked remove_job-IsLinked add_job-IsLinked
