-- ===== src/System.antt =====
-- One worker process with all of its requests: they share the worker's state, each has its own context,
-- and the event loop runs one handler or callback at a time. A step is one such run, or the
-- arrival or the end of a request.
pub mod Balance
pub mod Drained
use rl_nginx.Base.{ℕ, ◌+◌, Bool, true, false, Option, none, some, List, [], ◌∷◌, ◌++◌, ◌≡◌}
use rl_nginx.Conf.{MainConf, LocConf}
use rl_nginx.Worker.{Worker, on_steering_feedback, rebind_handler}
use rl_nginx.Request.{ReqCtx, State, Env, Call, internal_redirect}
use rl_nginx.Request.Release.{request_cleanup}
use rl_nginx.Request.Admit.{handler}
use rl_nginx.Request.Complete.{Status, RateLimitResult, rate_cb, Expiry, timeout_handler}
use rl_nginx.Request.Report.{End, log_handler}

-- What belongs to one request. `base` counts the references that nginx holds itself.
pub record Held : Type 0 where
  pub ctx : Option ReqCtx
  pub ctx_set : Bool
  pub cleanup_added : Bool
  pub count : ℕ
  pub completed : Bool
  pub calls : List Call
  pub base : ℕ

pub record Process : Type 0 where
  pub main : MainConf
  pub worker : Option Worker
  pub requests : List Held

-- The state that a handler of the request works on, and what it leaves to the request.
unfoldable pub focus : MainConf → Option Worker → Held → State
focus main worker h = record {
  main = main;
  worker = worker;
  ctx = h.ctx;
  ctx_set = h.ctx_set;
  cleanup_added = h.cleanup_added;
  count = h.count;
  completed = h.completed;
  calls = h.calls;
}

unfoldable pub held : ℕ → State → Held
held base st = record {
  ctx = st.ctx;
  ctx_set = st.ctx_set;
  cleanup_added = st.cleanup_added;
  count = st.count;
  completed = st.completed;
  calls = st.calls;
  base = base;
}

unfoldable pub new_held : ℕ → Held
new_held base = record {
  ctx = none;
  ctx_set = false;
  cleanup_added = false;
  count = base;
  completed = false;
  calls = [];
  base = base;
}

-- What can happen to a request while it lives.
pub data Event : Type 0 where
  phase : Env → LocConf → Event
  answer : Option ℕ → Status → Option RateLimitResult → Event
  expiry : Expiry → Event
  logged : End → Event
  redirected : Event

unfoldable pub run : Event → State → State
run (phase env lcf) st = (handler env lcf st).1
run (answer req status result) st = rate_cb req status result st
run (expiry x) st = timeout_handler x st
run (logged end) st = log_handler end st
run redirected st = internal_redirect st

-- The process after a handler, with the requests before and after the one that it ran for.
unfoldable pub resumed : List Held → List Held → ℕ → State → Process
unfolding held
resumed before after base st = record {
  main = st.main;
  worker = st.worker;
  requests = before ++ held base st ∷ after;
}

-- The process after the end of a request, whose pool is destroyed with its cleanup handlers run.
unfoldable pub without : List Held → List Held → State → Process
without before after st = record { main = st.main; worker = st.worker; requests = before ++ after }

pub data Step : Process → Process → Type 0 where
  arrive :
      (base : ℕ) (main : MainConf) (worker : Option Worker) (requests : List Held)
      → Step
          (record { main = main; worker = worker; requests = requests })
          (record { main = main; worker = worker; requests = new_held base ∷ requests })
  happen :
      (e : Event) (main : MainConf) (worker : Option Worker) (before : List Held) (h : Held)
      (after : List Held)
      → Step
          (record { main = main; worker = worker; requests = before ++ h ∷ after })
          (resumed before after h.base (run e (focus main worker h)))
  close :
      (main : MainConf) (worker : Option Worker) (before : List Held) (h : Held) (after : List Held)
      → Step
          (record { main = main; worker = worker; requests = before ++ h ∷ after })
          (without before after (request_cleanup (focus main worker h)))
  steer :
      (keep_port : Bool) (main : MainConf) (w : Worker) (requests : List Held)
      → Step
          (record { main = main; worker = some w; requests = requests })
          (record {
            main = main;
            worker = some (on_steering_feedback keep_port w);
            requests = requests;
          })
  read :
      (active : Bool) (main : MainConf) (w : Worker) (requests : List Held)
      → Step
          (record { main = main; worker = some w; requests = requests })
          (record {
            main = main;
            worker = some (record w { udp_read_active = active });
            requests = requests;
          })
  rebind :
      (candidate : Option ℕ) (main : MainConf) (w : Worker) (requests : List Held)
      → w.rebind_scheduled ≡ true
      → Step
          (record { main = main; worker = some w; requests = requests })
          (record { main = main; worker = some (rebind_handler candidate w); requests = requests })

-- Runs of the event loop, the last step last.
pub data Run (p : Process) : Process → Type 0 where
  idle : Run p p
  turn : {q r : Process} → Run p q → Step q r → Run p r

-- A process that has started: no worker yet and no request.
unfoldable pub launched : MainConf → Process
launched main = record { main = main; worker = none; requests = [] }
