-- ===== src/Server/Rest.antt =====
-- rest.go, ws.go and clock.go: the handlers of POST, GET and DELETE, of a websocket and of `/`.
use katamari.Base.{
  ℕ, true, not, List, [], ◌∷◌, ◌++◌, Option, none, some, if◌then◌else◌, Result, ok, err, Error,
  Outcome, returns, panics, blocks,
}
use katamari.Base.Int.{ℤ}
use katamari.Base.Text.{Bytes, codes, bytes_eq}
use katamari.Key.{is_valid, build}
use katamari.Key.Number.{format_int}
use katamari.Objects.{Codec, empty_object}
use katamari.Storage.{Database}
use katamari.Filters.{check, check_static, check_hooks, check_watchers}
use katamari.Messages.{Message, Patcher, decode_reader, encode}
use katamari.Stream.Pools.{Cache, Frame, Stream}
use katamari.Stream.{new_client, frame_text}
use katamari.Server.{
  Request, Response, Answer, answered, connected, dropped, Server, invalid_key, unauthorized,
  is_publishable, not_found_error, fetch,
}

abbrev pub created_response : Bytes → Response
created_response index = record {
  status = 200;
  body = codes "{\"index\": \"" ++ (index ++ codes "\"}");
}

abbrev pub first_frames : Codec → Bytes → ℕ → Cache → List Frame
first_frames codec version client entry =
    if not (bytes_eq version (format_int entry.version))
    then (client, frame_text (encode codec entry.content) true entry.version) ∷ []
    else []

abbrev pub stats_response : Result Bytes → Response
stats_response (err e) = record { status = 500; body = e }
stats_response (ok stats) = record { status = 200; body = stats }

module _ {D W : Type 0} (database : Database D) where
  -- `publish`: the body is decoded first, and its error answered after the tests of the key and of
  -- the request. `built` is the time in the key, `now` that of `Set`.
  abbrev pub publish_answer :
      Bytes → Server D W → Outcome (Result Bytes × D) → Outcome (Response × Server D W)
  publish_answer key app (returns (err e, d)) =
      returns (record { status = 500; body = e }, record app { storage = d })
  publish_answer key app (returns (ok index, d)) = returns (
    created_response index,
    record app { storage = d; world = check_watchers app.filters.after_write key app.world },
  )
  publish_answer key app panics = panics
  publish_answer key app blocks = blocks

  abbrev pub publish_content :
      ℤ → Bytes → Server D W → Result Bytes → Outcome (Response × Server D W)
  publish_content now key app (err e) = returns (record { status = 400; body = e }, app)
  publish_content now key app (ok content) =
      publish_answer key app (database.set now key content app.storage)

  abbrev pub publish_message :
      ℤ → Bytes → Server D W → Message × Option Error → Outcome (Response × Server D W)
  publish_message now key app (event, some e) = returns (record { status = 400; body = e }, app)
  publish_message now key app (event, none) =
      publish_content now key app (check app.filters.on_write key event.content app.is_static)

  unfoldable pub publish :
      Codec → Patcher → ℤ → ℤ → Request → Server D W → Outcome (Response × Server D W)
  publish codec patcher built now req app =
      if not (is_publishable req.key)
      then returns (invalid_key, app)
      else if not (app.audit req)
      then returns (unauthorized, app)
      else publish_message now (build built req.key) app (decode_reader codec patcher req.body)

  -- `unpublish`
  abbrev pub unpublish_answer :
      Bytes → Server D W → Outcome (Result (Unit {0}) × D) → Outcome (Response × Server D W)
  unpublish_answer key app (returns (err e, d)) = returns (
    record { status = if not_found_error e then 404 else 500; body = e },
    record app { storage = d },
  )
  unpublish_answer key app (returns (ok _, d)) =
      returns
        (record { status = 204; body = codes "unpublish " ++ key }, record app { storage = d })
  unpublish_answer key app panics = panics
  unpublish_answer key app blocks = blocks

  abbrev pub unpublish_checked :
      Bytes → Server D W → Result (Unit {0}) → Outcome (Response × Server D W)
  unpublish_checked key app (err e) = returns (record { status = 400; body = e }, app)
  unpublish_checked key app (ok _) = unpublish_answer key app (database.del key app.storage)

  unfoldable pub unpublish : Request → Server D W → Outcome (Response × Server D W)
  unpublish req app =
      if not (is_valid req.key)
      then returns (invalid_key, app)
      else if not (app.audit req)
      then returns (unauthorized, app)
      else unpublish_checked req.key app (check_hooks app.filters.on_delete req.key app.is_static)

  -- `ws`, up to the loop that reads from the websocket: the frames of the new client. The code writes
  -- them in a goroutine of its own, so a frame of a broadcast may reach the socket before them; here
  -- they are the result of the call, and what reads them first says so.
  abbrev pub ws_entry :
      Codec → Bytes → ℕ → Result Cache × Server D W → Result (List Frame) × Server D W
  ws_entry codec version client (err e, app) = (err e, app)
  ws_entry codec version client (ok entry, app) =
      (ok (first_frames codec version client entry), app)

  abbrev pub ws_client :
      Codec → ℤ → Request → Server D W → Result ℕ × Stream → Result (List Frame) × Server D W
  ws_client codec now req app (err e, sm) = (err e, record app { stream = sm })
  ws_client codec now req app (ok client, sm) =
      ws_entry codec req.version client (fetch database now req.key (record app { stream = sm }))

  abbrev pub ws_allowed :
      Codec → ℤ → Request → Server D W → Result (Unit {0}) → Result (List Frame) × Server D W
  ws_allowed codec now req app (err e) = (err e, app)
  ws_allowed codec now req app (ok _) =
      ws_client codec now req app (new_client app.on_subscribe req.upgraded req.key app.stream)

  unfoldable pub ws : Codec → ℤ → Request → Server D W → Result (List Frame) × Server D W
  ws codec now req app =
      ws_allowed codec now req app (check_static app.filters.on_read req.key app.is_static)

  -- `read`
  abbrev pub read_socket : Result (List Frame) × Server D W → Answer × Server D W
  read_socket (err e, app) = (answered (record { status = 400; body = [] }), app)
  read_socket (ok sent, app) = (connected sent, app)

  abbrev pub read_entry : Result Cache × Server D W → Answer × Server D W
  read_entry (err e, app) = (answered (record { status = 400; body = e }), app)
  read_entry (ok entry, app) =
      if bytes_eq entry.content empty_object
      then (answered (record { status = 404; body = codes "katamari: empty key" }), app)
      else (answered (record { status = 200; body = entry.content }), app)

  unfoldable pub read : Codec → ℤ → Request → Server D W → Answer × Server D W
  read codec now req app =
      if not (is_valid req.key)
      then (answered invalid_key, app)
      else if not (app.audit req)
      then (answered unauthorized, app)
      else if req.is_websocket
      then read_socket (ws codec now req app)
      else read_entry (fetch database now req.key app)

  -- `clock` and `getStats`; `time` is the text of the time
  abbrev pub clock_client : Bytes → Server D W → Result ℕ × Stream → Answer × Server D W
  clock_client time app (err e, sm) = (dropped, record app { stream = sm })
  clock_client time app (ok client, sm) =
      (connected ((client, time) ∷ []), record app { stream = sm })

  unfoldable pub clock : Bytes → Request → Server D W → Answer × Server D W
  clock time req app =
      if not (app.audit req)
      then (answered unauthorized, app)
      else clock_client time app (new_client app.on_subscribe req.upgraded [] app.stream)

  unfoldable pub get_stats : Bytes → Request → Server D W → Answer × Server D W
  get_stats time req app =
      if req.is_websocket
      then clock time req app
      else if not (app.audit req)
      then (answered unauthorized, app)
      else (answered (stats_response (database.all_keys app.storage)), app)
