-- ===== src/Tenant/Clients.antt =====
-- prisma/database-manager.service.ts: one client for each tenant code, made when it is first asked for.
-- `url_of` is `getDatabaseUrl`, and a client is known by the number of clients made before it.
use nestjs_order_api.Base.{
  ℕ, ◌+◌, String, Option, none, some, List, [], ◌∷◌, ◌++◌, ◌≡◌, refl, ap, ◌∙◌, arith, eq_refl,
}
use nestjs_order_api.Base.Keyed.{find, find-append, find-append_some, delete}
use nestjs_order_api.Http.{Exn, Result, ok, err}
use nestjs_order_api.User.{filled}

pub record Client : Type 0 where
  pub serial : ℕ
  pub url : Option (List ℕ)

pub record Connection : Type 0 where
  pub code : String
  pub client : Client

-- The map `connections`, and how many clients have been made.
pub record Pool : Type 0 where
  pub connections : List Connection
  pub made : ℕ

abbrev pub code_of : Connection → String
code_of c = c.code

-- `if (!this.connections.has(key)) this.connections.set(key, new PrismaClient(...))`, and `get`.
abbrev pub get_or_make : String → Option (List ℕ) → Pool → Option Connection → Client × Pool
get_or_make key url pool (some c) = (c.client, pool)
get_or_make key url pool none =
    let client : Client = record { serial = pool.made; url = url } in
    (
      client,
      record {
        connections = pool.connections ++ record { code = key; client = client } ∷ [];
        made = pool.made + 1;
      },
    )

unfoldable pub get_default_client : Pool → Client × Pool
get_default_client pool =
    get_or_make "_default_" none pool (find code_of "_default_" pool.connections)

module _ (url_of : String → List ℕ) where
  abbrev pub get_tenant_client : Option String → Pool → Client × Pool
  get_tenant_client none pool = get_default_client pool
  get_tenant_client (some code) pool =
      get_or_make code (some (url_of code)) pool (find code_of code pool.connections)

  unfoldable pub get_client : Option String → Pool → Client × Pool
  get_client tenant pool = get_tenant_client (filled tenant) pool

  -- The clients that were asked for in a row.
  unfoldable pub get_clients : List (Option String) → Pool → Pool
  get_clients [] pool = pool
  get_clients (t ∷ ts) pool = get_clients ts (get_client t pool).1

  abbrev pub key_of : Option String → String
  key_of none = "_default_"
  key_of (some code) = code

  -- The client of a key is in the pool afterwards, and no other client of the pool is replaced.
  get_or_make_finds :
      (key : String) (url : Option (List ℕ)) (pool : Pool) (found : Option Connection)
      → find code_of key pool.connections ≡ found
      → (c : Connection) × (find code_of key (get_or_make key url pool found).1.connections
          ≡ some c)
        × (c.client ≡ (get_or_make key url pool found).0)
  get_or_make_finds key url pool (some c) e = (c, e, refl)
  get_or_make_finds key url pool none e =
      let client : Client = record { serial = pool.made; url = url } in
      let c : Connection = record { code = key; client = client } in
      (c, ground (arith, find-append code_of key pool.connections c e, eq_refl key), refl)

  get_or_make_keeps :
      (j key : String) (url : Option (List ℕ)) (pool : Pool) (found : Option Connection)
      (c : Connection)
      → find code_of j pool.connections ≡ some c
      → find code_of j (get_or_make key url pool found).1.connections ≡ some c
  get_or_make_keeps j key url pool (some d) c e = e
  get_or_make_keeps j key url pool none c e = find-append_some code_of j pool.connections _ c e

  get_tenant_client_keeps :
      (j : String) (t : Option String) (pool : Pool) (c : Connection)
      → find code_of j pool.connections ≡ some c
      → find code_of j (get_tenant_client t pool).1.connections ≡ some c
  unfolding get_default_client
  get_tenant_client_keeps j none pool c e = get_or_make_keeps j "_default_" none pool _ c e
  get_tenant_client_keeps j (some code) pool c e = get_or_make_keeps j code _ pool _ c e

  get_clients_keeps :
      (j : String) (ts : List (Option String)) (pool : Pool) (c : Connection)
      → find code_of j pool.connections ≡ some c
      → find code_of j (get_clients ts pool).connections ≡ some c
  unfolding get_clients get_client
  get_clients_keeps j [] pool c e = e
  get_clients_keeps j (t ∷ ts) pool c e =
      get_clients_keeps j ts (get_tenant_client (filled t) pool).1 c
        (get_tenant_client_keeps j (filled t) pool c e)

  get_tenant_client_finds :
      (t : Option String) (pool : Pool)
      → (c : Connection) × (find code_of (key_of t) (get_tenant_client t pool).1.connections
          ≡ some c)
        × (c.client ≡ (get_tenant_client t pool).0)
  unfolding get_default_client
  get_tenant_client_finds none pool = get_or_make_finds "_default_" none pool _ refl
  get_tenant_client_finds (some code) pool = get_or_make_finds code _ pool _ refl

  get_tenant_client_again :
      (t : Option String) (pool : Pool) (c : Connection)
      → find code_of (key_of t) pool.connections ≡ some c
      → get_tenant_client t pool ≡ (c.client, pool)
  unfolding get_default_client
  get_tenant_client_again none pool c e = ap (get_or_make "_default_" none pool) e
  get_tenant_client_again (some code) pool c e = ap (get_or_make code (some (url_of code)) pool) e

  -- Once a client has been asked for, by a tenant code or by none, it is the answer to every later
  -- request of the same key, whatever other requests come between, and that makes no client. No tenant
  -- code, or an empty one, and the code _default_ have the same key.
  pub get_client_again :
      (tenant again : Option String) (others : List (Option String)) (pool : Pool)
      → key_of (filled again) ≡ key_of (filled tenant)
      → let later = get_clients others (get_client tenant pool).1 in
        get_client again later ≡ ((get_client tenant pool).0, later)
  unfolding get_client
  get_client_again tenant again others pool same_key =
      let (c, e, same) = get_tenant_client_finds (filled tenant) pool in
      let later = get_clients others (get_tenant_client (filled tenant) pool).1 in
      get_tenant_client_again (filled again) later c (
        ap (λ k. find code_of k later.connections) same_key
        ∙ get_clients_keeps (key_of (filled tenant)) others
            (get_tenant_client (filled tenant) pool).1 c e)
      ∙ ap (λ x. (x, later)) same

-- Closing. `disconnect` is `client.$disconnect()`, which may throw.
module _ {E : Type 0} (disconnect : Client → E → Option Exn × E) where
  abbrev pub disconnected : String → Pool → Option Connection → E → Result (Unit {0}) × (Pool × E)
  disconnected code pool none env = (ok tt, (pool, env))
  disconnected code pool (some c) env =
      let (failed, later) = disconnect c.client env in
      elim failed [
        | none ↦
            (ok tt, (record pool { connections = delete code_of code pool.connections }, later))
        | some e ↦ (err e, (pool, later))
      ]

  -- `disconnectTenant`
  unfoldable pub disconnect_tenant : String → Pool → E → Result (Unit {0}) × (Pool × E)
  disconnect_tenant code pool env = disconnected code pool (find code_of code pool.connections) env

  -- The errors that are logged when all connections are closed.
  unfoldable pub close_all : List Connection → E → List Exn × E
  close_all [] env = ([], env)
  close_all (c ∷ cs) env =
      let (failed, later) = disconnect c.client env in
      let (errors, last) = close_all cs later in
      (elim failed [ none ↦ errors | some e ↦ e ∷ errors ], last)

  -- `onModuleDestroy`
  unfoldable pub on_module_destroy : Pool → E → List Exn × (Pool × E)
  unfolding close_all
  on_module_destroy pool env =
      let (errors, later) = close_all pool.connections env in
      (errors, (record pool { connections = [] }, later))
