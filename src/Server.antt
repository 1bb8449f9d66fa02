-- ===== src/Server.antt =====
-- The answers of the software tower: `IntoResponse` of `AppError` in
-- crates/software-tower/src/content.rs, and the statuses of the handlers that the orchestrator calls.
use sumo_provision.Base.{Text, text, [], Result, ok, err}
use sumo_provision.Releases.Tables.{AppError, bad_hash, bad_request, not_found, internal}
use sumo_provision.Releases.L1.{L1Answer, signed, no_content}
use sumo_provision.Client.{Response}

unfoldable pub into_response : AppError → Response
into_response bad_hash = record { status = 400; content = text "invalid content hash" }
into_response (bad_request m) = record { status = 400; content = m }
into_response not_found = record { status = 404; content = text "not found" }
into_response internal = record { status = 500; content = text "internal error" }

-- a handler that answers with a body
unfoldable pub respond : Result AppError Text → Response
unfolding into_response
respond (ok body) = record { status = 200; content = body }
respond (err e) = into_response e

unfoldable pub respond_l1 : Result AppError L1Answer → Response
unfolding into_response
respond_l1 (ok (signed l1)) = record { status = 200; content = l1 }
respond_l1 (ok no_content) = record { status = 204; content = [] }
respond_l1 (err e) = into_response e
