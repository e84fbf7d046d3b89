-- ===== src/HttpServer.antt =====
-- internal/httpserver/server.go: how the admin server starts and ends. Which handler answers a path is chi's
-- part; the handlers are in Health.
pub mod Routes
use Prim.Native.String.{◌++◌}
use pubsub_event_processor.Common.{
  String, Bool, Option, none, some, Error, cause, wrap, text, if◌then◌else◌,
}

-- What ends the `select` of `serve`: the context, or the goroutine that runs `srv.Serve`, with its result.
pub data Wake (X : Type 0) : Type 0 where
  cancelled : Wake X
  served : Option X → Wake X

-- `listen` is ListenConfig.Listen, `shutdown` is http.Server.Shutdown, and `is_server_closed` tests for
-- http.ErrServerClosed.
module _ {X S : Type 0} (listen : String → S → Option X × S) (shutdown : S → Option X × S)
    (is_server_closed : X → Bool) where
  -- What comes out of `errCh`, where a closed channel gives nil.
  abbrev pub from_channel : Option X → Option (Error X)
  from_channel none = none
  from_channel (some x) = if is_server_closed x then none else some (cause x)

  -- `serve`
  unfoldable pub serve : Wake X → S → Option (Error X) × S
  serve (served r) s = (from_channel r, s)
  serve cancelled s =
      let (r, s') = shutdown s in
      (elim r [ none ↦ none | some x ↦ some (wrap (text "shutdown") (cause x)) ], s')

  -- `Server.Run`
  unfoldable pub run_server : String → Wake X → S → Option (Error X) × S
  unfolding serve
  run_server addr wake s =
      let (r, s') = listen addr s in
      elim r [
        | some x ↦ (some (wrap (text ("listen " ++ addr)) (cause x)), s')
        | none ↦ serve wake s'
      ]
