-- ===== src/Tests/Web.antt =====
-- Requests to the web API on concrete tables, and a login.
use mathlib.Core.List.{Memᴰ}
use mathlib.Core.Bool.{false≢true}
use spliit_mcp.Prelude.{
  ◌+◌, ◌≡◌, ◌≢◌, refl, sym, ap, ◌∙◌, ◌==◌, true, false, [], ◌∷◌, none, some, arith,
}
use spliit_mcp.Config.{config_of}
use spliit_mcp.Tests.Startup.{values}
use spliit_mcp.Spliit.Model.{GroupForm}
use spliit_mcp.Spliit.Participants.{present}
use spliit_mcp.Store.Rows.{User, Session}
use spliit_mcp.Store.Scope.{groups_of}
use spliit_mcp.Tools.World.{World}
use spliit_mcp.Oidc.{NameClaims}
use spliit_mcp.Web.Reply.{Preview, error, preview_body, me_body, go, halt}
use spliit_mcp.Web.Session.{Cookie, on_success, require_session, logout}
use spliit_mcp.Web.Session.Guard.{SignedIn, require_session-SignedIn}
use spliit_mcp.Web.Session.Login.{login-lets_in, logout-rejected}
use spliit_mcp.Web.NewGroup.{built, build_new_form}
use spliit_mcp.Web.NewGroup.Distinct.{Members, build_new_form-Members}
use spliit_mcp.Web.Groups.{preview}
use spliit_mcp.Web.Groups.Suggestion.{Only, preview-Only}
use spliit_mcp.Web.Me.{MeEdit, me_of, update_me}
use spliit_mcp.Web.Me.Saved.{IsSaved, update_me-IsSaved}
use spliit_mcp.Web.Routes
use spliit_mcp.Web.Routes.{api}
use spliit_mcp.Web.Routes.Own.{api-own}
use spliit_mcp.Tests.Forms.{friends}
use spliit_mcp.Tests.Tools.{env, world}

abbrev token : NameClaims
token = record { name = "Dan"; preferred_username = ""; given_name = ""; email = "dan@example.com" }

-- Dan logs in for the first time, for an hour.
abbrev after_login : World
after_login = (on_success env "issuer" 3600 true "dan" token none world).1

abbrev dans_cookie : Cookie
dans_cookie = record { value = "fresh"; expires_at = env.clock 0 + 3600; secure = true }

logs_in : on_success env "issuer" 3600 true "dan" token none world ≡ (go dans_cookie, after_login)
unfolding on_success
logs_in = refl

login-lets_in_example :
    (u : User) × ((require_session env (some "fresh") after_login).0 ≡ go u) × (u.sub ≡ "dan")
login-lets_in_example =
    login-lets_in env "issuer" 3600 true "dan" token none world after_login dans_cookie logs_in
      (omega arith) refl refl

logout-rejected_example :
    (require_session env (some "fresh") (logout env true (some "fresh") after_login).1).0
    ≡ halt (record { status = 401; body = error "session expired" })
logout-rejected_example = logout-rejected env true "fresh" after_login refl refl

abbrev dan : User
dan = record {
  sub = "dan";
  issuer = "issuer";
  email = "dan@example.com";
  display_name = "Dan";
  default_group_id = none;
  created_at = env.clock 0;
  updated_at = env.clock 0;
}

lets_dan_in : (require_session env (some "fresh") after_login).0 ≡ go dan
unfolding require_session on_success
lets_dan_in = refl

require_session-SignedIn_example : SignedIn after_login.db (env.clock 0) (some "fresh") dan
require_session-SignedIn_example =
    require_session-SignedIn env (some "fresh") after_login dan lets_dan_in

abbrev expired : Session
expired = record { id = "c1"; user_sub = "ann"; expires_at = 50; created_at = 1 }

abbrev of_dan : Session
of_dan = record {
  id = "fresh";
  user_sub = "dan";
  expires_at = env.clock 0 + 3600;
  created_at = env.clock 0;
}

named_fresh :
    (s : Session) → Memᴰ s (of_dan ∷ expired ∷ []) → some "fresh" ≡ some s.id → s.user_sub ≡ "dan"
named_fresh s (Memᴰ.head e) h = ap (λ (x : Session). x.user_sub) e
named_fresh s (Memᴰ.tail (Memᴰ.head e)) h =
    let same : "fresh" ≡ "c1" = cc (h, ap (λ (x : Session). x.id) e) in
    absurd (false≢true (ap (λ x. x == "fresh") (sym same)))
named_fresh s (Memᴰ.tail (Memᴰ.tail m)) h = elim m [ ]

not_ann :
    (u : User)
    → SignedIn after_login.db (env.clock after_login.ticks) (some "fresh") u
    → "ann" ≢ u.sub
unfolding on_success
not_ann u i e =
    let same : "ann" ≡ "dan" = e ∙ i.of_user ∙ named_fresh i.session i.stored i.named in
    absurd (false≢true (ap (λ x. x == "dan") same))

-- Dan asks for the deletion of Ann's group.
api-own_example :
    groups_of "ann"
      (api env
        (config_of values)
        (λ s. s)
        (some "fresh")
        (Routes.delete_group "g1")
        after_login).1.db
    ≡ groups_of "ann" after_login.db
api-own_example =
    api-own "ann" env (config_of values) (λ s. s) (some "fresh") (Routes.delete_group "g1")
      after_login not_ann

answers_not_found :
    (api env (config_of values) (λ s. s) (some "fresh") (Routes.delete_group "g1") after_login).0
    ≡ halt (record { status = 404; body = error "group not found" })
unfolding api on_success config_of
answers_not_found = refl

abbrev formed : GroupForm
formed = record {
  name = "Trip";
  information = none;
  currency = "USD";
  currency_code = none;
  participants = record { id = none; name = "Dan" } ∷ record { id = none; name = "Eve" } ∷ [];
}

forms_trip :
    build_new_form (λ s. s) "Trip" " " "Dan" (" Eve" ∷ "" ∷ "Dan " ∷ "Eve" ∷ []) ≡ built formed
unfolding build_new_form
forms_trip = refl

build_new_form-Members_example : Members (λ s. s) "Dan" (" Eve" ∷ "" ∷ "Dan " ∷ "Eve" ∷ []) formed
build_new_form-Members_example =
    build_new_form-Members (λ s. s) "Trip" " " "Dan" (" Eve" ∷ "" ∷ "Dan " ∷ "Eve" ∷ []) formed
      forms_trip

-- A name of one character that has three bytes passes.
abbrev one_character : GroupForm
one_character = record formed { participants = record { id = none; name = "円" } ∷ [] }

passes_one_character : build_new_form (λ s. s) "Trip" "" "円" [] ≡ built one_character
unfolding build_new_form
passes_one_character = refl

abbrev ann : User
ann = record dan { sub = "ann"; display_name = " ANN" }

abbrev shown : Preview
shown = record {
  group_id = "s1";
  base_url = "https://spliit.app/api/trpc";
  host = "spliit.app";
  name = friends.name;
  currency = friends.currency;
  participants = present friends.participants;
  suggested_participant = "p1";
  suggested_from_name = " ANN";
  suggestion_is_ambiguous = false;
}

previews :
    (preview env "" ann (some ("https://spliit.app/groups/s1", "")) world).0
    ≡ go (record { status = 200; body = preview_body shown })
unfolding preview
previews = refl

preview-Only_example : Only env.fold " ANN" shown.participants "p1"
preview-Only_example =
    preview-Only env "" ann (some ("https://spliit.app/groups/s1", "")) world shown previews
      (λ e. false≢true (ap (λ x. x == "") e))

-- Dan changes his name, and has no default group.
abbrev renames : MeEdit
renames = record { display_name = some " Daniel "; default_group_id = some "" }

abbrev daniel : User
daniel = record dan { display_name = "Daniel" }

renamed :
    (update_me env dan (some renames) after_login).0
    ≡ go (record { status = 200; body = me_body (me_of daniel) })
unfolding update_me on_success
renamed = refl

update_me-IsSaved_example :
    IsSaved renames "dan"
      (record { status = 200; body = me_body (me_of daniel) })
      (update_me env dan (some renames) after_login).1.db
update_me-IsSaved_example =
    update_me-IsSaved env dan renames after_login
      (record { status = 200; body = me_body (me_of daniel) }) refl renamed
