-- ===== src/Client/Dial.antt =====
-- internal/pubsub/client.go and internal/pubsub/credentials.go: `Dial` with the options that it gives to gRPC, and
-- what `Client` passes on to its connection. K are the connections that grpc.NewClient makes.
use pubsub_event_processor.Common.{
  ℕ, String, Bool, true, Option, List, [], ◌∷◌, Result, ok, err, Error, cause, wrap, text,
}
use pubsub_event_processor.Config.{PubSubConfig}

pub data TlsVersion : Type 0 where
  tls_1_2 : TlsVersion

-- keepalive.ClientParameters, in nanoseconds.
pub record KeepaliveParams : Type 0 where
  pub time : ℕ
  pub timeout : ℕ
  pub permit_without_stream : Bool

-- grpc.DialOption, as far as the program goes. `with_per_rpc_credentials` says whether the credentials require
-- transport security.
pub data DialOption : Type 0 where
  with_transport_credentials : TlsVersion → DialOption
  with_per_rpc_credentials : Bool → DialOption
  with_keepalive_params : KeepaliveParams → DialOption
  with_unary_interceptor : DialOption

-- `RequireTransportSecurity`
abbrev pub require_transport_security : Bool
require_transport_security = true

abbrev pub dial_options : List DialOption
dial_options =
    with_transport_credentials tls_1_2
    ∷ with_per_rpc_credentials require_transport_security
    ∷ with_keepalive_params
        (record { time = 30_000_000_000; timeout = 10_000_000_000; permit_without_stream = true })
    ∷ with_unary_interceptor
    ∷ []

-- `Client`, with its connection; the generated stub is a wrapper of it.
pub record Client (K : Type 0) : Type 0 where
  pub conn : K

-- `newClient`
abbrev pub new_client : {K : Type 0} → K → Client K
new_client conn = record { conn = conn }

-- `dial_grpc` is grpc.NewClient.
module _ {K X S : Type 0} (dial_grpc : String → List DialOption → S → Result X K × S) where
  -- `Dial`
  unfoldable pub dial : PubSubConfig → S → Result (Error X) (Client K) × S
  dial cfg s =
      let (r, s') = dial_grpc cfg.endpoint dial_options s in
      elim r [
        | err x ↦ (err (wrap (text "grpc new client") (cause x)), s')
        | ok conn ↦ (ok (new_client conn), s')
      ]

-- `Close`, over the connection's.
abbrev pub close_client : {K X S : Type 0} → (K → S → Option X × S) → Client K → S → Option X × S
close_client close c = close c.conn

-- `Subscribe`, over the stub's; T are the streams.
abbrev pub subscribe : {K T X S : Type 0} → (K → S → Result X T × S) → Client K → S → Result X T × S
subscribe open_stream c = open_stream c.conn
