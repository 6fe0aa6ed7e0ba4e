-- ===== src/Worker/Init.antt =====
-- `rn_worker_init` with its release of everything on a failure, `rn_worker_cleanup` and
-- `rn_exit_process`. The client library's `r_client_create` is a parameter, which gives a client for a
-- configuration or fails; clients are counted like blocks. Fault injection is off.
use rl_nginx.Base.{ℕ, ◌+◌, Option, none, some, [], ◌∷◌, ◌++◌, Bytes, length}
use rl_nginx.Policy.{RequestPolicy}
use rl_nginx.Conf.{MainConf}
use rl_nginx.Memory.{Allocator, Memory, free, free_if, with_block}
use rl_nginx.Worker.{Worker, new_worker}
use rl_nginx.Worker.Endpoint.{System, Endpoint, Open, close_endpoint, open_candidate}

-- `rclient_config_t` as it is passed: strings end in a zero, no secret is a null pointer.
pub record ClientConfig : Type 0 where
  pub dns_name : Bytes
  pub key_id : ℕ
  pub auth_type : ℕ
  pub secret : Option Bytes
  pub request_policy : RequestPolicy

-- A worker that is there: its block, its endpoint and its client.
pub record LiveWorker : Type 0 where
  pub block : ℕ
  pub endpoint : Endpoint
  pub client : ℕ
  pub worker : Worker

pub record Resources : Type 0 where
  pub memory : Memory
  pub udp : Open
  pub clients : Memory

-- The bytes of a string of the configuration; the one that is not set is empty.
abbrev pub text_of : Option Bytes → Bytes
text_of none = []
text_of (some bytes) = bytes

-- `rn_worker_release_config_buffers`.
unfoldable pub release_buffers : Option ℕ → Option ℕ → Memory → Memory
unfolding free_if
release_buffers dns secret m = free_if dns (free_if secret m)

-- `rn_worker_cleanup`, of the client and the endpoint that there are.
unfoldable pub worker_cleanup : Option ℕ → Option Endpoint → Resources → Resources
unfolding free_if close_endpoint
worker_cleanup client endpoint r = record r {
  clients = free_if client r.clients;
  udp = close_endpoint endpoint r.udp;
}

-- The label `failed`: the buffers, what the worker has, and its block.
unfoldable pub init_failure :
    ℕ → Option ℕ → Option ℕ → Option Endpoint → Resources → Option LiveWorker × Resources
unfolding release_buffers worker_cleanup free
init_failure block dns secret endpoint r =
    let r' = worker_cleanup none endpoint r in
    (none, record r' { memory = free block (release_buffers dns secret r'.memory) })

module _ (give : Allocator) (worker_size : ℕ) (system : System)
    (client_create : ClientConfig → Option ℕ) (mcf : MainConf) where
  unfoldable pub client_config : Option ℕ → ClientConfig
  client_config secret = record {
    dns_name = text_of mcf.tenant_dns ++ 0 ∷ [];
    key_id = mcf.key_id;
    auth_type = mcf.auth_type;
    secret = elim secret [ none ↦ none | some p ↦ some (text_of mcf.auth_key ++ 0 ∷ []) ];
    request_policy = mcf.request_policy;
  }

  -- The worker with its endpoint, when the client was or was not created.
  unfoldable pub created :
      ℕ → ℕ → Option ℕ → Endpoint → Option ℕ → Resources → Option LiveWorker × Resources
  unfolding init_failure release_buffers
  created block dns secret e none r = init_failure block (some dns) secret (some e) r
  created block dns secret e (some client) r = (
    some (record { block = block; endpoint = e; client = client; worker = new_worker e.fd }),
    record r {
      memory = release_buffers (some dns) secret r.memory;
      clients = record r.clients {
        attempts = r.clients.attempts + 1;
        made = client ∷ r.clients.made;
      };
    },
  )

  unfoldable pub with_endpoint :
      ℕ → ℕ → Option ℕ → Option Endpoint × Open → Resources → Option LiveWorker × Resources
  unfolding created init_failure client_config
  with_endpoint block dns secret (none, o) r =
      init_failure block (some dns) secret none (record r { udp = o })
  with_endpoint block dns secret (some e, o) r =
      created block dns secret e (client_create (client_config secret)) (record r { udp = o })

  unfoldable pub with_secret : ℕ → ℕ → Option ℕ → Resources → Option LiveWorker × Resources
  unfolding with_endpoint
  with_secret block dns secret r =
      with_endpoint block dns secret (open_candidate system mcf.bind r.udp) r

  -- The secret is copied where there is one.
  unfoldable pub with_dns_name : ℕ → ℕ → Resources → Option LiveWorker × Resources
  unfolding with_secret init_failure with_block
  with_dns_name block dns r = elim (text_of mcf.auth_key) [
    | [] ↦ with_secret block dns none r
    | c ∷ key ↦
        with_block give (length (c ∷ key) + 1) r.memory
          (λ m. init_failure block (some dns) none none (record r { memory = m }))
          (λ secret m. with_secret block dns (some secret) (record r { memory = m }))
  ]

  -- `rn_worker_init`, where there is no worker yet.
  unfoldable pub worker_init : Resources → Option LiveWorker × Resources
  unfolding with_dns_name init_failure with_block
  worker_init r =
      with_block give worker_size r.memory (λ m. (none, record r { memory = m }))
        (λ block m.
          with_block give (length (text_of mcf.tenant_dns) + 1) m
            (λ m'. init_failure block none none none (record r { memory = m' }))
            (λ dns m'. with_dns_name block dns (record r { memory = m' })))

-- `rn_exit_process`, of the worker that there is.
unfoldable pub exit_process : Option LiveWorker → Resources → Resources
unfolding worker_cleanup free
exit_process none r = r
exit_process (some w) r =
    let r' = worker_cleanup (some w.client) (some w.endpoint) r in
    record r' { memory = free w.block r'.memory }
