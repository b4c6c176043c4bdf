-- ===== src/Blocker/Checks.antt =====
-- pkg/blocker/checks.go: the conditions for a pull request to be merged. A set of names is a list;
-- `configs.MergeBlockLabel` is `block_label`.
pub mod Meaning
pub mod Statuses
pub mod Conditions
use cicd_operator.Base.{
  ltb, if◌then◌else◌, ◌==◌, nat_eq, length, filterb, Str, str, str_eq, trim_prefix, sort_strings,
  join, Map, get, pos, negsuc, zero, suc, refl, Bool, true, false, not, ◌&&◌, ◌||◌, none, some,
  List, [], ◌∷◌, ◌++◌, arith,
}
use cicd_operator.Api.{MergeQuery}
use cicd_operator.Git.{PullRequest, success, status_eq, CommitStatus}

abbrev pub blocker_context : Str
blocker_context = str "blocker"

unfoldable pub contains_string : Str → List Str → Bool
contains_string needle [] = false
contains_string needle (e ∷ arr) = e == needle || contains_string needle arr

-- What a check says: whether it passes, and why not.
abbrev pub Verdict : Type 0
Verdict = Bool × Str

unfoldable pub bracketed : Str → Str → Str → Str
bracketed before name after = before ++ (name ++ after)

unfoldable pub check_branch : Str → MergeQuery → Verdict
unfolding contains_string trim_prefix bracketed
check_branch b q =
    let branch = trim_prefix b (str "refs/heads/") in
    let first : Verdict =
      if ltb 0 (length q.branches) && not (contains_string branch q.branches)
      then (false, bracketed (str "Branch [") branch (str "] is not in branches query."))
      else (true, []) in
    if contains_string branch q.skip_branches
    then (false, bracketed (str "Branch [") branch (str "] is in skipBranches query."))
    else first

unfoldable pub check_author : Str → MergeQuery → Verdict
unfolding contains_string bracketed
check_author author q =
    let first : Verdict =
      if ltb 0 (length q.authors) && not (contains_string author q.authors)
      then (false, bracketed (str "Author [") author (str "] is not in authors query."))
      else (true, []) in
    if contains_string author q.skip_authors
    then (false, bracketed (str "Author [") author (str "] is in skipAuthors query."))
    else first

-- The required labels that the pull request lacks, and the blocking ones that it has.
unfoldable pub missing_labels : List Str → List Str → List Str
unfolding contains_string
missing_labels labels wanted = filterb (λ l. not (contains_string l labels)) wanted

unfoldable pub blocking_labels : List Str → List Str → List Str
unfolding contains_string
blocking_labels labels block = filterb (λ l. contains_string l labels) block

abbrev pub is_empty : List Str → Bool
is_empty [] = true
is_empty (x ∷ l) = false

unfoldable pub names : List Str → Str
unfolding sort_strings join
names l = join (str ",") (sort_strings l)

unfoldable pub check_labels : List Str → List Str → List Str → Verdict
unfolding missing_labels blocking_labels names bracketed
check_labels labels wanted block =
    let missing = missing_labels labels wanted in
    let blocking = blocking_labels labels block in
    let required =
      if is_empty missing
      then []
      else bracketed (str "Label [") (names missing) (str "] is required.") in
    let spaced = if required == [] then required else required ++ str " " in
    (
      is_empty missing && is_empty blocking,
      if is_empty blocking
          then required
          else spaced
            ++ bracketed (str "Label [") (names blocking) (str "] is blocking the merge."),
    )

-- The required checks that have not succeeded.
unfoldable pub check_unmet : Map Str CommitStatus → Str → Bool
check_unmet statuses c = elim (get c statuses) [ none ↦ true | some s ↦ not (s.state == success) ]

unfoldable pub required_unmet : Map Str CommitStatus → List Str → List Str
unfolding check_unmet
required_unmet statuses checks = filterb (check_unmet statuses) checks

-- The other checks, where none is required: all but the blocker's own and the optional ones.
unfoldable pub others_unmet : Map Str CommitStatus → List Str → List Str
unfolding contains_string
others_unmet [] optional = []
others_unmet ((context, s) ∷ statuses) optional =
    let rest = others_unmet statuses optional in
    if context == blocker_context
    then rest
    else if not (s.state == success) && not (contains_string context optional)
    then context ∷ rest
    else rest

unfoldable pub unmet_checks : Map Str CommitStatus → MergeQuery → List Str
unfolding required_unmet others_unmet
unmet_checks statuses q =
    if ltb 0 (length q.checks)
    then required_unmet statuses q.checks
    else others_unmet statuses q.optional_checks

unfoldable pub check_checks : Map Str CommitStatus → MergeQuery → Verdict
unfolding unmet_checks names bracketed
check_checks statuses q =
    let unmet = unmet_checks statuses q in
    if is_empty unmet
    then (true, [])
    else (false, bracketed (str "Checks [") (names unmet) (str "] are not successful."))

unfoldable pub add_message : List Str → Str → List Str
add_message messages m = if m == [] then messages else messages ++ m ∷ []

-- The labels that the query asks for, with `approved` if approval is required.
unfoldable pub wanted_labels : MergeQuery → List Str
wanted_labels q = if q.approve_required then q.labels ++ str "approved" ∷ [] else q.labels

module _ (block_label : Str) where
  -- The labels that block, with the global one.
  unfoldable pub refused_labels : MergeQuery → List Str
  refused_labels q =
      if not (block_label == []) then q.block_labels ++ block_label ∷ [] else q.block_labels

  unfoldable pub check_conditions_simple : MergeQuery → PullRequest → Verdict
  unfolding check_labels check_author check_branch wanted_labels refused_labels add_message join
  check_conditions_simple q pr =
      let (labels_ok, label_msg) = check_labels pr.labels (wanted_labels q) (refused_labels q) in
      let (author_ok, author_msg) = check_author pr.author.name q in
      let (branch_ok, branch_msg) = check_branch pr.base.ref q in
      (
        labels_ok && author_ok && branch_ok,
        join (str " ") (add_message (add_message (add_message [] label_msg) author_msg) branch_msg),
      )

  -- Whether to merge, whether to leave the merge pool, and why.
  unfoldable pub check_conditions_full :
      MergeQuery → PullRequest → Map Str CommitStatus → Bool × Bool × Str
  unfolding check_conditions_simple check_checks add_message join
  check_conditions_full q pr statuses =
      let (simple, simple_msg) = check_conditions_simple q pr in
      let (checks_ok, checks_msg) = check_checks statuses q in
      let messages = add_message [] simple_msg in
      let messages' =
        if pr.mergeable then messages else messages ++ str "Merge conflicts exist." ∷ [] in
      if not simple then (false, true, join (str " ") messages) else (
        simple && pr.mergeable && checks_ok,
        false,
        join (str " ") (add_message messages' checks_msg),
      )
