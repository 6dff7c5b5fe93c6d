-- ===== src/Qlog.antt =====
-- qlog.go: the trace files of QUIC connections, over what os and qlogwriter answer.
pub mod Paths
use quicmq.Base.{ℕ, Bool, true, false, Option, none, some, List, [], ◌∷◌, ◌++◌, ◌==◌, if◌then◌else◌}
use quicmq.Base.Bytes.{Bytes}
use quicmq.Result.{Error, Result, ok, err}

-- `bufferedWriteCloser`: a bufio.Writer of state W over a file of state F.
pub record BufferedWriteCloser (W F : Type 0) : Type 0 where
  pub writer : W
  pub closer : F

-- `Flush` of bufio.Writer, and `Close` of what is under it.
pub record Buffering (W F : Type 0) : Type 0 where
  pub flush : W → Option Error × W
  pub close_file : F → Option Error × F

module _ {W F : Type 0} (io : Buffering W F) where
  -- `Close` behind `Flush`: the closer is not closed if that failed.
  unfoldable pub after_flush :
      BufferedWriteCloser W F → Option Error → Option Error × BufferedWriteCloser W F
  after_flush b (some e) = (some e, b)
  after_flush b none = let (e, f) = io.close_file b.closer in (e, record b { closer = f })

  unfoldable pub close : BufferedWriteCloser W F → Option Error × BufferedWriteCloser W F
  unfolding after_flush
  close b = let (e, w) = io.flush b.writer in after_flush (record b { writer = w }) e

-- `strings.TrimRight(dir, "/")`.
unfoldable pub trim_step : ℕ → Bytes → Bytes
trim_step b (x ∷ xs) = b ∷ x ∷ xs
trim_step b [] = if b == 47 then [] else b ∷ []

unfoldable pub trim_right : Bytes → Bytes
unfolding trim_step
trim_right [] = []
trim_right (b ∷ bs) = trim_step b (trim_right bs)

-- "client" and "server".
unfoldable pub role : Bool → Bytes
role true = 99 ∷ 108 ∷ 105 ∷ 101 ∷ 110 ∷ 116 ∷ []
role false = 115 ∷ 101 ∷ 114 ∷ 118 ∷ 101 ∷ 114 ∷ []

-- ".sqlog".
abbrev pub extension : Bytes
extension = 46 ∷ 115 ∷ 113 ∷ 108 ∷ 111 ∷ 103 ∷ []

-- "%s/%s_%s.sqlog"; a connection's ID is given by its text.
unfoldable pub trace_path : Bytes → Bool → Bytes → Bytes
unfolding trim_right role
trace_path dir is_client conn_id =
    trim_right dir ++ (47 ∷ (conn_id ++ (95 ∷ (role is_client ++ extension))))

-- What `qlogwriter.NewConnectionFileSeq` is made of: the file, the side and the connection's ID.
pub record Trace : Type 0 where
  pub file : ℕ
  pub is_client : Bool
  pub conn_id : Bytes

-- What os answers: `MkdirAll` and `Create`.
pub record Files : Type 0 where
  pub mkdir_all : Bytes → Option Error
  pub create : Bytes → Result ℕ

-- The files that were created, with their paths, and the traces whose `Run` was started.
pub record Tracing : Type 0 where
  pub created : List (Bytes × ℕ)
  pub running : List Trace

unfoldable pub with_file : Bytes → Bool → Bytes → Result ℕ → Tracing → Option Trace × Tracing
with_file path is_client conn_id (err e) t = (none, t)
with_file path is_client conn_id (ok f) t =
    let trace : Trace = record { file = f; is_client = is_client; conn_id = conn_id } in
    (
      some trace,
      record { created = t.created ++ (path, f) ∷ []; running = t.running ++ trace ∷ [] },
    )

unfoldable pub with_dir :
    Files → Bytes → Bool → Bytes → Option Error → Tracing → Option Trace × Tracing
unfolding with_file trace_path
with_dir os dir is_client conn_id (some e) t = (none, t)
with_dir os dir is_client conn_id none t =
    let path = trace_path dir is_client conn_id in
    with_file path is_client conn_id (os.create path) t

-- `makeQlogTracer`: the function that it returns.
unfoldable pub make_qlog_tracer : Files → Bytes → Bool → Bytes → Tracing → Option Trace × Tracing
unfolding with_dir
make_qlog_tracer os dir is_client conn_id t = with_dir os dir is_client conn_id (os.mkdir_all dir) t
