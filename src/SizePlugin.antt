-- ===== src/SizePlugin.antt =====
-- pkg/plugins/size/size.go: the label for the size of a pull request. `limits` are `configs.PluginSizeS` to
-- `PluginSizeXXL`; the git server answers a request by a function of the label.
pub mod Labels
use cicd_operator.Base.{
  leb, if◌then◌else◌, ◌==◌, nat_eq, filterb, Str, str, str_eq, has_prefix, pos, negsuc, ℕ, zero,
  suc, ◌+◌, refl, Bool, true, false, Option, none, some, List, [], ◌∷◌, ◌++◌, arith,
}
use cicd_operator.Git.{pull_request, PullRequestAction, opened, reopened, synchronize, Webhook}

pub record Limits : Type 0 where
  pub s : ℕ
  pub m : ℕ
  pub l : ℕ
  pub xl : ℕ
  pub xxl : ℕ

abbrev pub label_prefix : Str
label_prefix = str "size/"

unfoldable pub determine_proper_size_label : Limits → ℕ → Str
determine_proper_size_label limits num_lines =
    label_prefix
    ++ (if leb num_lines limits.s
        then str "XS"
        else if leb num_lines limits.m
        then str "S"
        else if leb num_lines limits.l
        then str "M"
        else if leb num_lines limits.xl
        then str "L"
        else if leb num_lines limits.xxl
        then str "XL"
        else str "XXL")

unfoldable pub is_size_label : Str → Bool
unfolding has_prefix
is_size_label label = has_prefix label label_prefix

unfoldable pub get_size_labels : List Str → List Str
unfolding is_size_label
get_size_labels labels = filterb is_size_label labels

-- A request that changes the labels on the server.
pub data LabelRequest : Type 0 where
  delete_label : Str → LabelRequest
  set_label : Str → LabelRequest

unfoldable pub total : List ℕ → ℕ
total [] = 0
total (c ∷ changes) = c + total changes

-- Which events are handled: a pull request opened, reopened, or with new commits.
unfoldable pub handled_action : PullRequestAction → Bool
handled_action opened = true
handled_action reopened = true
handled_action synchronize = true
handled_action _ = false

module _ (refuses : LabelRequest → Bool) where
  -- The loop over the current size labels: the requests, whether the proper label was met, and
  -- whether a request failed, which ends the loop.
  unfoldable pub delete_improper : Str → List Str → List LabelRequest × Bool × Bool
  delete_improper proper [] = ([], false, false)
  delete_improper proper (l ∷ labels) =
      let (requests, met, failed) = delete_improper proper labels in
      if l == proper
      then (requests, true, failed)
      else if refuses (delete_label l)
      then (delete_label l ∷ [], false, true)
      else (delete_label l ∷ requests, met, failed)

  -- The requests of one event with these lines changed, and whether it ends with an error.
  unfoldable pub label_size : Limits → List ℕ → List Str → List LabelRequest × Bool
  unfolding determine_proper_size_label get_size_labels delete_improper total
  label_size limits changes labels =
      let proper = determine_proper_size_label limits (total changes) in
      let (requests, met, failed) = delete_improper proper (get_size_labels labels) in
      if failed
      then (requests, true)
      else if met
      then (requests, false)
      else (requests ++ set_label proper ∷ [], refuses (set_label proper))

  -- `Handle`; `diff` is `GetPullRequestDiff` through the git client; `none` is an error of either.
  unfoldable pub handle_size : Limits → (ℕ → Option (List ℕ)) → Webhook → List LabelRequest × Bool
  unfolding label_size handled_action
  handle_size limits diff wh = elim wh.pull [
    | none ↦ ([], false)
    | some pr ↦ elim wh.event_type [
      | pull_request ↦
          if handled_action pr.action
          then (elim (diff pr.id) [
            | none ↦ ([], true)
            | some changes ↦ label_size limits changes pr.labels
          ])
          else ([], false)
      | _ ↦ ([], false)
    ]
  ]
