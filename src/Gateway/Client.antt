-- ===== src/Gateway/Client.antt =====
-- services/gateway-go/internal/client/router_client.go. grpc.NewClient is a parameter: the text of
-- its error, or none.
use distributed_ml_inference.Prelude.{String, Option, none, some}
use distributed_ml_inference.Process.{Program, router_conn, acquired, pure, emit, ◌>>◌}

module _ {T : Type 0} where
  abbrev pub connected : String → Option String → Program T (Option String)
  connected addr (some err) = pure (some err)
  connected addr none = do emit (acquired (router_conn addr)); pure none

  -- NewRouterClient, with its error; a connection that is made is what it returns the close of.
  unfoldable pub new_router_client : (String → Option String) → String → Program T (Option String)
  new_router_client dial addr = connected addr (dial addr)
