-- ===== src/Application/Docs.antt =====
-- src/main.py in the stacks of infra: where the documentation is shown.
use vici.Base.{◌≡◌, Bool, true, false, [], ◌∷◌, ◌∈◌, All, arith}
use vici.Base.Members.{mem_of_All}
use vici.Base.Texts.{Text, lit, same}
use vici.Application.{docs_app_configs}
use vici.Deploy.Started.{stacks}

-- Whether the pages of the documentation are left as they are.
abbrev shows_docs : Text → Bool
shows_docs env = elim (docs_app_configs env) [ [] ↦ true | x ∷ xs ↦ false ]

abbrev IsShownInStaging : Text → Type 0
IsShownInStaging env = shows_docs env ≡ same env (lit "staging")

stacks-shown : All IsShownInStaging stacks
unfolding docs_app_configs
stacks-shown = ground arith

-- Of the stacks, only the application of `staging` shows its documentation: the stack `dev` is none
-- of the environments that may.
shows_docs-stacks : (env : Text) → env ∈ stacks → shows_docs env ≡ same env (lit "staging")
shows_docs-stacks env m = mem_of_All IsShownInStaging stacks stacks-shown env m
