-- ===== src/Config/Valid.antt =====
-- What a configuration that is loaded satisfies, and that nothing else is refused.
use spliit_mcp.Prelude.{
  String, ◌≡◌, refl, ap, subst, true, false, Option, none, some, arith, ◌==◌, is_some, eqb,
}
use spliit_mcp.Text.{trim_right_slashes}
use spliit_mcp.Text.Laws.{trim_right_idem}
use spliit_mcp.Text.Url.{parse}
use spliit_mcp.Config.{Config, Values, Invalid, loaded, config_of, validate, validated, load}

-- The public URL, the issuer and the default instance's URL are given and end in no slash, the public
-- URL can be parsed, and the database and the client are named.
pub record IsValid (c : Config) : Type 0 where
  pub public_url : (c.public_url == "") ≡ false
  pub public_url_trimmed : trim_right_slashes c.public_url ≡ c.public_url
  pub public_url_parses : is_some (parse c.public_url) ≡ true
  pub database_url : (c.database_url == "") ≡ false
  pub issuer : (c.oidc.issuer == "") ≡ false
  pub issuer_trimmed : trim_right_slashes c.oidc.issuer ≡ c.oidc.issuer
  pub client_id : (c.oidc.client_id == "") ≡ false
  pub default_url : (c.spliit.default_url == "") ≡ false
  pub default_url_trimmed : trim_right_slashes c.spliit.default_url ≡ c.spliit.default_url

trimmed_twice : (s : String) → trim_right_slashes (trim_right_slashes s) ≡ trim_right_slashes s
unfolding trim_right_slashes
trimmed_twice s = trim_right_idem (λ c. eqb c b'/') s

IsValid-of-validate : (v : Values) → validate (config_of v) ≡ none → IsValid (config_of v)
unfolding validate config_of
IsValid-of-validate v h = record {
  public_url = ground (arith, h);
  public_url_trimmed = trimmed_twice (v.text "public_url");
  public_url_parses = ground (arith, h);
  database_url = ground (arith, h);
  issuer = ground (arith, h);
  issuer_trimmed = trimmed_twice (v.text "oidc.issuer");
  client_id = ground (arith, h);
  default_url = ground (arith, h);
  default_url_trimmed = trimmed_twice (v.text "spliit.default_url");
}

loaded-eq : (c d : Config) (o : Option Invalid) → validated c o ≡ loaded d → (o ≡ none) × (c ≡ d)
loaded-eq c d none h = (refl, cc h)
loaded-eq c d (some x) h = cc

complaint_free : (c : Config) → IsValid c → validate c ≡ none
unfolding validate
complaint_free c i =
    rw (i.public_url, i.public_url_parses, i.database_url, i.issuer, i.client_id, i.default_url)
      refl

-- A configuration that `Load` returns is the one of the values and is valid; and where the
-- configuration of the values is valid, `Load` returns it.
pub load-IsValid :
    (v : Values)
    → ((c : Config) → load v ≡ loaded c → (config_of v ≡ c) × IsValid c)
      × (IsValid (config_of v) → load v ≡ loaded (config_of v))
unfolding load
load-IsValid v = (
  λ c h.
      let (o, e) = loaded-eq (config_of v) c (validate (config_of v)) h in
      (e, subst IsValid e (IsValid-of-validate v o)),
  λ i. ap (validated (config_of v)) (complaint_free (config_of v) i),
)
