-- ===== src/Lidar/MetricsServer.antt =====
-- The thread of the LIDAR emulator's main that serves the metrics over HTTP: sockets, and the
-- response. Whether a system call succeeds is an argument; the request that it reads is ignored.
pub mod Response
pub mod Descriptors
use d_ro_cm.Base.{ℕ, Bool, true, false, List, [], ◌∷◌, ◌++◌, if◌then◌else◌, length}
use d_ro_cm.Base.Bytes.{Bytes, codes, written}
use d_ro_cm.Base.Bytes.Decimal.{to_string}
use d_ro_cm.Metrics.{Metrics, get_prometheus_text}

-- The string that is written to the client.
unfoldable pub response : Bytes → Bytes
response body = written (
    codes "HTTP/1.1 200 OK\r\n"
    ∷ codes "Content-Type: text/plain; version=0.0.4; charset=utf-8\r\n"
    ∷ codes "Content-Length: "
    ∷ to_string (length body)
    ∷ codes "\r\n"
    ∷ codes "Connection: close\r\n\r\n"
    ∷ body
    ∷ [])

-- The system calls, in their order. `open_server` is a `socket` that succeeds and `open_client` an
-- `accept` that does.
pub data Event : Type 0 where
  open_server set_option bind listen close_server : Event
  failed_accept open_client read close_client : Event
  write : Bytes → Event

-- The results of `socket`, `bind` and `listen`.
pub record Setup : Type 0 where
  pub has_socket : Bool
  pub is_bound : Bool
  pub is_listening : Bool

-- A turn of the loop: g_running as it is read, whether `accept` gave a client, and the counters.
pub record Turn : Type 0 where
  pub running : Bool
  pub accepted : Bool
  pub metrics : Metrics

-- Still in the loop, or returned.
pub data Exit : Type 0 where
  serving returned : Exit

abbrev pub prepend : List Event → List Event × Exit → List Event × Exit
prepend es (es', x) = (es ++ es', x)

module _ (avg_us avg_ms : ℕ → ℕ → Bytes) where
  abbrev pub answer : Turn → List Event
  answer u =
      Event.open_client
      ∷ Event.read
      ∷ Event.write (response (get_prometheus_text avg_us avg_ms u.metrics))
      ∷ Event.close_client
      ∷ []

  unfoldable pub serve : List Turn → List Event × Exit
  serve [] = ([], Exit.serving)
  serve (u ∷ us) =
      let rest = serve us in
      if u.running
      then (if u.accepted then prepend (answer u) rest else prepend (Event.failed_accept ∷ []) rest)
      else (Event.close_server ∷ [], Exit.returned)

  unfoldable pub metrics_thread : Setup → List Turn → List Event × Exit
  unfolding serve
  metrics_thread s us =
      if s.has_socket
      then prepend (Event.open_server ∷ Event.set_option ∷ Event.bind ∷ []) (
          if s.is_bound
          then prepend (Event.listen ∷ [])
              (if s.is_listening then serve us else (Event.close_server ∷ [], Exit.returned))
          else (Event.close_server ∷ [], Exit.returned))
      else ([], Exit.returned)
