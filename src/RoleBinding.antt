-- ===== src/RoleBinding.antt =====
-- controllers/approval_controller.go: the subjects of an approval's role binding.
pub mod Subjects
use cicd_operator.Base.{
  if◌then◌else◌, Eq, ◌==◌, nat_eq, Str, str, str_beq_iff, str_eq, has_prefix, trim_prefix, split_on,
  pos, negsuc, zero, suc, ◌≡◌, refl, ◌↔◌, Bool, true, false, ◌&&◌, ◌||◌, Option, none, some, List,
  [], ◌∷◌, ◌++◌, arith,
}
use cicd_operator.Api.Tasks.{ApprovalUser}

-- `rbac.Subject`
pub record Subject : Type 0 where
  pub api_group : Str
  pub kind : Str
  pub name : Str
  pub namespace : Str

unfoldable pub subject_beq : Subject → Subject → Bool
subject_beq a b =
    a.api_group == b.api_group
    && (a.kind == b.kind && (a.namespace == b.namespace && a.name == b.name))

pub subject_beq_iff : (a b : Subject) → (subject_beq a b ≡ true) ↔ (a ≡ b)
unfolding subject_beq
subject_beq_iff a b = ground (
  arith,
  str_beq_iff a.api_group b.api_group,
  str_beq_iff a.kind b.kind,
  str_beq_iff a.namespace b.namespace,
  str_beq_iff a.name b.name,
)

instance abbrev pub subject_eq : Eq Subject
subject_eq = record { beq = subject_beq; beq_iff = subject_beq_iff }

abbrev pub service_account_prefix : Str
service_account_prefix = str "system:serviceaccount:"

unfoldable pub service_account : List Str → Option Subject
service_account [] = none
service_account (a ∷ []) = none
service_account (a ∷ b ∷ []) =
    some (record { api_group = []; kind = str "ServiceAccount"; name = b; namespace = a })
service_account (a ∷ b ∷ c ∷ l) = none

-- The subject of a user; a service account that is not a namespace and a name is passed over.
unfoldable pub subject_of : Str → ApprovalUser → Option Subject
unfolding service_account has_prefix trim_prefix split_on
subject_of namespace u =
    if has_prefix u.name service_account_prefix
    then service_account (split_on b':' (trim_prefix u.name service_account_prefix))
    else some (record {
      api_group = str "rbac.authorization.k8s.io";
      kind = str "User";
      name = u.name;
      namespace = namespace;
    })

unfoldable pub has_subject : Subject → List Subject → Bool
has_subject s [] = false
has_subject s (t ∷ l) = t == s || has_subject s l

-- The loop over the users.
unfoldable pub add_subjects : Str → List ApprovalUser → List Subject → List Subject
unfolding subject_of has_subject
add_subjects namespace [] subjects = subjects
add_subjects namespace (u ∷ users) subjects = elim (subject_of namespace u) [
  | none ↦ add_subjects namespace users subjects
  | some s ↦
      add_subjects namespace users (if has_subject s subjects then subjects else subjects ++ s ∷ [])
]
