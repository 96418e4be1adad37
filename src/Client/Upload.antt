-- ===== src/Client/Upload.antt =====
-- pkg/client/client.go: the upload of files, in chunks, by several workers.
mod Slices
pub mod Chunks
pub mod Results
use cloud_android_orchestrat.Prelude.{if◌then◌else◌}
use cloud_android_orchestrat.Client.Requests.{Response}
use cloud_android_orchestrat.Errors.{GoError, plain}
use cloud_android_orchestrat.Text.{itoa, path_base}
use cloud_android_orchestrat.Prelude.{
  Bool, List, Option, String, [], drop, false, length, ltb, none, not, some, suc, take, true, zero,
  ℕ, ◌*◌, ◌++◌, ◌+◌, ◌-◌, ◌/◌, ◌<>◌, ◌==◌, ◌∷◌,
}
use cloud_android_orchestrat.Exec.{Exec, Result, crash, err, lift, ok, panic, pure, ◌>>=◌, ◌>>◌}

pub record FileInfo : Type 0 where
  pub name : String
  pub total_chunks : ℕ

pub record UploadChunkJob : Type 0 where
  pub filename : String
  pub chunk_number : ℕ
  pub total_chunks : ℕ
  pub chunk_size_bytes : ℕ

-- What is written to a `multipart.Writer`.
pub data Part : Type 0 where
  form_field : String → String → Part
  form_file : String → List ℕ → Part

-- `int((stat.Size() + u.ChunkSizeBytes - 1) / u.ChunkSizeBytes)`
unfoldable pub total_chunks_of : ℕ → ℕ → ℕ
total_chunks_of size chunk_size = (size + chunk_size - 1) / chunk_size

abbrev add_info : FileInfo → Result (List FileInfo) → Result (List FileInfo)
add_info info (ok infos) = ok (info ∷ infos)
add_info info r = r

-- `getFilesInfos`; `stat` is `os.Stat`, with the size
unfoldable pub get_files_infos : (String → Result ℕ) → ℕ → List String → Result (List FileInfo)
get_files_infos stat chunk_size [] = ok []
get_files_infos stat chunk_size (name ∷ names) = elim (stat name) [
  | ok size ↦
      add_info (record { name = name; total_chunks = total_chunks_of size chunk_size })
        (get_files_infos stat chunk_size names)
  | err e ↦ err e
  | panic p ↦ panic p
]

-- The jobs of a file from chunk `i + 1` on, `left` of them.
unfoldable pub chunk_jobs : ℕ → FileInfo → ℕ → ℕ → List UploadChunkJob
chunk_jobs chunk_size info zero i = []
chunk_jobs chunk_size info (suc left) i =
    record {
      filename = info.name;
      chunk_number = i + 1;
      total_chunks = info.total_chunks;
      chunk_size_bytes = chunk_size;
    }
    ∷ chunk_jobs chunk_size info left (i + 1)

-- `sendJobs`, when the context is never cancelled
unfoldable pub send_jobs : ℕ → List FileInfo → List UploadChunkJob
send_jobs chunk_size [] = []
send_jobs chunk_size (info ∷ infos) =
    chunk_jobs chunk_size info info.total_chunks 0 ++ send_jobs chunk_size infos

-- `sendJobs` with a context that is cancelled before the job with the given index is taken
abbrev send_jobs_until : ℕ → ℕ → List FileInfo → List UploadChunkJob
send_jobs_until n chunk_size infos = take n (send_jobs chunk_size infos)

-- `addFormField`
abbrev add_form_field : String → String → Exec (List Part) (Unit {0})
add_form_field field value parts = (ok tt, parts ++ form_field field value ∷ [])

-- `io.CopyN` of what is left of a file, into a new form file: it fails at the file's end.
abbrev copy_n : String → ℕ → List ℕ → Exec (List Part) (Unit {0})
copy_n name n bytes parts = (
  if ltb (length bytes) n then err (plain "EOF") else ok tt,
  parts ++ form_file name (take n bytes) ∷ [],
)

abbrev copy : String → List ℕ → Exec (List Part) (Unit {0})
copy name bytes parts = (ok tt, parts ++ form_file name bytes ∷ [])

-- `writeMultipartRequest`; `open_file` is `os.Open`, with the content
unfoldable pub write_multipart_request :
    (String → Result (List ℕ)) → UploadChunkJob → Exec (List Part) (Unit {0})
write_multipart_request open_file job = do
  file ← lift (open_file job.filename)
  let rest = drop ((job.chunk_number - 1) * job.chunk_size_bytes) file
  add_form_field "chunk_number" (itoa job.chunk_number)
  add_form_field "chunk_total" (itoa job.total_chunks)
  add_form_field "chunk_size_bytes" (itoa job.chunk_size_bytes)
  if ltb job.chunk_number job.total_chunks
      then copy_n (path_base job.filename) job.chunk_size_bytes rest
      else copy (path_base job.filename) rest

abbrev put_result : UploadChunkJob → Response → Result (Unit {0})
put_result job res =
    if res.status_code == 200
    then ok tt
    else err (
        plain (
          "Failed uploading file chunk with status code \""
          <> res.status
          <> "\". File \""
          <> path_base job.filename
          <> "\", chunk number: "
          <> itoa job.chunk_number
          <> ", chunk total: "
          <> itoa job.total_chunks
          <> "."))

-- `upload`: `put` sends the parts, with whether the context was cancelled, which is done when they
-- could not all be written.
module _ {W : Type 0} (open_file : String → Result (List ℕ))
    (put : Bool → List Part → Exec W Response) where
  abbrev is_ok : {A : Type 0} → Result A → Bool
  is_ok (ok a) = true
  is_ok r = false

  unfoldable pub upload : UploadChunkJob → Exec W (Unit {0})
  upload job = do
    res ←
        put (not (is_ok (write_multipart_request open_file job []).0))
          (write_multipart_request open_file job []).1
    lift (put_result job res)

  abbrev or_again :
      Result (Unit {0})
      → Exec W (Option GoError)
      → (GoError → Exec W (Option GoError))
      → Exec W (Option GoError)
  or_again (ok tt) done again = done
  or_again (err e) done again = again e
  or_again (panic p) done again = crash p

  -- One job of a worker: it is repeated as long as `NextBackOff` gives a duration.
  unfoldable run_job : List ℕ → UploadChunkJob → Exec W (Option GoError)
  run_job [] job w = let (r, w') = upload job w in or_again r (pure none) (λ e. pure (some e)) w'
  run_job (duration ∷ durations) job w =
      let (r, w') = upload job w in or_again r (pure none) (λ e. run_job durations job) w'

-- What `Upload` makes of the results, in the order in which they arrive: the first error.
unfoldable pub first_error : List (Option GoError) → Option GoError
first_error [] = none
first_error (none ∷ results) = first_error results
first_error (some e ∷ results) = some e

abbrev pub as_result : Option GoError → Result (Unit {0})
as_result none = ok tt
as_result (some e) = err e

-- `UploadFiles` and `Upload`; `run` stands for the workers: the results of the jobs that they took,
-- in the order in which they arrive.
unfoldable pub upload_files :
    (String → Result ℕ)
    → (List UploadChunkJob → List (Option GoError))
    → ℕ
    → List String
    → Result (Unit {0})
upload_files stat run chunk_size names =
    if chunk_size == 0
    then panic "ChunkSizeBytes value cannot be zero"
    else elim (get_files_infos stat chunk_size names) [
      | ok infos ↦ as_result (first_error (run (send_jobs chunk_size infos)))
      | err e ↦ err e
      | panic p ↦ panic p
    ]
