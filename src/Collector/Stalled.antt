-- ===== src/Collector/Stalled.antt =====
-- pkg/collector/collector.go: what a new period does to the collector.
use cicd_operator.Base.{
  Bool-cases, ◌==◌, ==_iff, nat_eq, Str, str, str_eq, ◌≡◌, ◌≢◌, refl, ap, ◌∙◌, ◌⊎◌, inl, inr, true,
  false, not, filterb, Option, none, some, [], ◌∷◌, arith, ℕ,
}
use cicd_operator.Cron.{Added, added, refused, Agent}
use cicd_operator.Collector.{
  Collector, from_added, new_collector, start_collector, stop_old, start_new, reconfigure,
}

module _ {State : Type 0} (agent : Agent State) where
  -- The cron runs, with the collector's entry alone, which has the collector's period.
  abbrev pub IsActive : Collector State → Type 0
  IsActive c =
      (c.is_running ≡ true) × (agent.entries c.cron ≡ (c.cron_id, c.cron_spec, str "collect") ∷ [])

  -- The cron has stopped and has no entry, and the same period again changes nothing.
  abbrev pub IsStalled : Str → Collector State → Type 0
  IsStalled period c =
      (c.is_running ≡ false)
      × (agent.entries c.cron ≡ [])
      × (reconfigure agent period c ≡ (c, none))

  -- The collector follows the period, or the cron library has refused it and the collector has stalled.
  abbrev pub Follows : Str → Collector State → Collector State × Option Str → Type 0
  Follows period c next =
      (IsActive next.0 × (next.0.cron_spec ≡ period) × (next.1 ≡ none))
      ⊎ ((c.cron_spec ≢ period)
          × ((e : Str) × ((agent.add_func period (str "collect") (agent.remove c.cron_id c.cron)).0
                ≡ refused e)
              × (next.1 ≡ some e))
          × IsStalled period next.0)

  removed :
      (period : Str) (c : Collector State)
      → IsActive c
      → agent.entries (stop_old agent period c).cron ≡ []
  unfolding stop_old
  removed period c (r, e) =
      agent.entries-remove c.cron_id c.cron
      ∙ (ap (filterb (λ (x : ℕ × Str × Str). not (x.0 == c.cron_id))) e
          ∙ ground (arith, ==_iff c.cron_id c.cron_id))

  again :
      (period : Str) (c : Collector State)
      → c.cron_spec ≡ period
      → reconfigure agent period c ≡ (c, none)
  unfolding reconfigure
  again period c e = rw ((==_iff c.cron_spec period).1 e) refl

  start-cases :
      (period : Str) (c : Collector State) (answer : Added)
      → IsActive c
      → c.cron_spec ≢ period
      → (agent.add_func period (str "collect") (stop_old agent period c).cron).0 ≡ answer
      → Follows period c (
          start_new agent
            (stop_old agent period c)
            (answer, (agent.add_func period (str "collect") (stop_old agent period c).cron).1))
  unfolding start_new stop_old
  start-cases period c (added id) h n e =
      let (entries, fresh) =
        agent.entries-added period (str "collect") (stop_old agent period c).cron id e in
      inl (
        (refl, entries ∙ ap (λ l. (id, period, str "collect") ∷ l) (removed period c h)),
        refl,
        refl,
      )
  start-cases period c (refused text) h n e = inr (
    n,
    (text, e, refl),
    (
      refl,
      agent.entries-refused period (str "collect") (stop_old agent period c).cron text e
          ∙ removed period c h,
      again period _ refl,
    ),
  )

  -- A collector whose cron runs with its entry, which has its period, follows each period that it is given: its cron
  -- runs with one entry, which has the new period, and there is no error. Or the period is another and the cron library
  -- refuses it: then its error is given, the cron has stopped without an entry, and giving the period again
  -- changes nothing.
  pub reconfigure-Follows :
      (period : Str) (c : Collector State)
      → IsActive c
      → Follows period c (reconfigure agent period c)
  unfolding reconfigure
  reconfigure-Follows period c h = elim (Bool-cases (c.cron_spec == period)) [
    | inl same ↦ rw same (inl (h, (==_iff c.cron_spec period).0 same, refl))
    | inr other ↦ rw other (
        start-cases period c
          (agent.add_func period (str "collect") (stop_old agent period c).cron).0 h
          (λ e. ground (arith, other, (==_iff c.cron_spec period).1 e)) refl)
  ]

  made-IsActive :
      (period : Str) (s : State) (answer : Added) (c : Collector State)
      → (agent.add_func period (str "collect") s).0 ≡ answer
      → agent.entries s ≡ []
      → from_added agent period (answer, (agent.add_func period (str "collect") s).1) ≡ some c
      → IsActive (start_collector agent c)
  unfolding from_added start_collector
  made-IsActive period s (refused e) c q empty h = cc h
  made-IsActive period s (added id) c q empty h =
      let (entries, fresh) = agent.entries-added period (str "collect") s id q in
      let settled = (entries ∙ ap (λ l. (id, period, str "collect") ∷ l) empty) in
      ground (arith, h, settled)

  -- A collector that is made with an empty cron, and started, runs with its entry.
  start-IsActive :
      (period : Str) (s : State) (c : Collector State)
      → agent.entries s ≡ []
      → new_collector agent period s ≡ some c
      → IsActive (start_collector agent c)
  unfolding new_collector
  start-IsActive period s c empty h =
      made-IsActive period s (agent.add_func period (str "collect") s).0 c refl empty h
