-- ===== src/Deployment/Expected.antt =====
-- What a deployment that passes is to be like, apart from the checks of the script.
use ketabdan_ms.Prelude.{
  String, ◌≡◌, ◌⊎◌, false, Option, none, some, List, ◌∷◌, ◌++◌, ◌==◌, nat_eq, string_eq, any,
}
use Prim.Native.String.{◌++◌ as ◌+s◌}
use ketabdan_ms.Json.{Json, str, obj, Fields, get}
use ketabdan_ms.Deployment.{Response, Fetched, answered, Publisher, Container}
use ketabdan_ms.Deployment.Containers.{service_of}

-- A reply came, and it is as it is to be.
abbrev pub Answered : (Response → Type 0) → Fetched → Type 0
Answered P reply = (r : Response) × (reply ≡ answered r) × P r

abbrev pub ToHttps : Response → Type 0
ToHttps r =
    ((r.status ≡ 301) ⊎ (r.status ≡ 308))
    × (rest : String) × (r.header "Location" ≡ some ("https://" +s rest))

-- The body is an object with the text at the key.
abbrev pub HasText : Option Json → String → String → Type 0
HasText body key text =
    (fields : Fields) × (body ≡ some (obj fields)) × (get key fields ≡ some (str text))

abbrev pub HasChecks : Option Json → Type 0
HasChecks body =
    (fields : Fields) × (body ≡ some (obj fields))
    × (checks : Fields) × (get "checks" fields ≡ some (obj checks))
    × (get "database" checks ≡ some (str "ok"))
    × (get "redis" checks ≡ some (str "ok"))

-- Not published on the host, or by the proxy for one of its two ports
abbrev pub Allowed : String → Publisher → Type 0
Allowed service p =
    (p.published_port ≡ none)
    ⊎ ((p.published_port ≡ some 0)
        ⊎ ((service ≡ "caddy") × ((p.target_port ≡ 80) ⊎ (p.target_port ≡ 443))))

-- The container is the last that is listed for the service.
pub record LastOf (service : String) (c : Container) (all : List Container) : Type 0 where
  pub before : List Container
  pub after : List Container
  pub listed : all ≡ before ++ (c ∷ after)
  pub of_service : service_of c ≡ service
  pub no_later : any (λ d. service_of d == service) after ≡ false

abbrev pub Running : List Container → String → Type 0
Running all service = (c : Container) × LastOf service c all × (c.state ≡ some "running")

abbrev pub Healthy : List Container → String → Type 0
Healthy all service =
    (c : Container) × LastOf service c all
    × (c.state ≡ some "running")
    × (c.health ≡ some "healthy")
