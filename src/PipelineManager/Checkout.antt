-- ===== src/PipelineManager/Checkout.antt =====
-- pkg/pipelinemanager/step_git_checkout.go: the step that checks the sources out, less its requests of resources.
use cicd_operator.Base.{Str, str, join, [], ◌∷◌}
use cicd_operator.Tekton.{TaskStep}
use cicd_operator.PipelineManager.Envs.{default_working_dir}

unfoldable pub default_script : Str
unfolding join
default_script = join (b'\n' ∷ []) (
    str "#!/bin/sh"
    ∷ str "set -x"
    ∷ str "set -e"
    ∷ []
    ∷ str "git config --global user.email \"bot@cicd.tmax.io\""
    ∷ str "git config --global user.name \"tmax-cicd-bot\""
    ∷ str "git init"
    ∷ []
    ∷ str "CHECKOUT_URL=\"$CI_SERVER_URL/$CI_REPOSITORY\""
    ∷ str "CI_HEAD_REF_ARRAY=\"$CI_HEAD_REF\""
    ∷ []
    ∷ str "if [ \"$CI_BASE_REF\" = \"\" ]; then "
    ∷ str "  # Push Event"
    ∷ str "  CHECKOUT_REF=\"$CI_HEAD_REF\""
    ∷ str "else "
    ∷ str "  # Pull Request Event"
    ∷ str "  CHECKOUT_REF=\"$CI_BASE_REF\""
    ∷ str "fi"
    ∷ []
    ∷ str "git fetch \"$CHECKOUT_URL\" \"$CHECKOUT_REF\""
    ∷ str "git checkout FETCH_HEAD"
    ∷ []
    ∷ str "if [ \"$CI_BASE_REF\" != \"\" ]; then"
    ∷ str "  # Pull request event"
    ∷ str "  for ci_head_ref in $CI_HEAD_REF_ARRAY; do "
    ∷ str "    git fetch \"$CHECKOUT_URL\" \"$ci_head_ref\""
    ∷ str "    git merge --no-ff FETCH_HEAD"
    ∷ str "  done"
    ∷ str "fi"
    ∷ []
    ∷ str "git submodule update --init --recursive"
    ∷ []
    ∷ [])

-- `git_image` is `configs.GitImage`.
unfoldable pub git_checkout : Str → TaskStep
git_checkout git_image = record {
  name = str "git-clone";
  container = record { image = git_image; working_dir = default_working_dir; env = [] };
  script = default_script;
}
