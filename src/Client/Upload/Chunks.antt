-- ===== src/Client/Upload/Chunks.antt =====
-- The chunks of a file are the file.
use cloud_android_orchestrat.Client.Upload.Slices.{
  length-drop, length-take, length-zero, take-drop-append, total_chunks-bounds, total_chunks-zero,
}
use mathlib.Core.List.{append_assoc}
use cloud_android_orchestrat.Client.Upload.{
  get_files_infos, send_jobs, FileInfo, chunk_jobs, Part, UploadChunkJob, form_field, form_file,
  total_chunks_of, write_multipart_request,
}
use cloud_android_orchestrat.Exec.{Result, ok}
use cloud_android_orchestrat.Prelude.{
  Bool-cases, inl, inr, sym, ◌∙◌, false, ap, ltb, true, List, String, [], arith, drop, length, refl,
  suc, take, zero, ℕ, ◌*◌, ◌++◌, ◌+◌, ◌-◌, ◌<◌, ◌∷◌, ◌≡◌, ◌≤◌,
}
use mathlib.Core.List.{append_assoc, append-nil}
use native.Mathlib.Nat.{suc-mul, mul-le-mul_right}

-- The bytes that the parts of a request carry.
abbrev bytes_of : List Part → List ℕ
bytes_of [] = []
bytes_of (form_field field value ∷ parts) = bytes_of parts
bytes_of (form_file name bytes ∷ parts) = bytes ++ bytes_of parts

-- What the requests of a list of jobs carry, one after the other.
abbrev pub joined : (String → Result (List ℕ)) → List UploadChunkJob → List ℕ
joined open_file [] = []
joined open_file (job ∷ jobs) =
    bytes_of (write_multipart_request open_file job []).1 ++ joined open_file jobs

-- The job of chunk `i + 1`.
abbrev job_of : ℕ → FileInfo → ℕ → UploadChunkJob
job_of c info i = record {
  filename = info.name;
  chunk_number = i + 1;
  total_chunks = info.total_chunks;
  chunk_size_bytes = c;
}

module _ (open_file : String → Result (List ℕ)) where
  -- A chunk that is not the last.
  job-bytes :
      (job : UploadChunkJob) (file : List ℕ)
      → open_file job.filename ≡ ok file
      → job.chunk_number < job.total_chunks
      → bytes_of (write_multipart_request open_file job []).1
        ≡ take job.chunk_size_bytes (drop ((job.chunk_number - 1) * job.chunk_size_bytes) file)
          ++ []
  unfolding write_multipart_request
  job-bytes job file o h =
      let e : ltb job.chunk_number job.total_chunks ≡ true = ground arith in rw (o, e) refl

  -- The last chunk.
  last_job-bytes :
      (job : UploadChunkJob) (file : List ℕ)
      → open_file job.filename ≡ ok file
      → job.chunk_number ≡ job.total_chunks
      → bytes_of (write_multipart_request open_file job []).1
        ≡ drop ((job.chunk_number - 1) * job.chunk_size_bytes) file ++ []
  unfolding write_multipart_request
  last_job-bytes job file o h =
      let e : ltb job.chunk_number job.total_chunks ≡ false = ground arith in rw (o, e) refl

  joined-chunk_jobs :
      (c : ℕ) (info : FileInfo) (file : List ℕ) (left i : ℕ)
      → open_file info.name ≡ ok file
      → i + suc left ≡ info.total_chunks
      → joined open_file (chunk_jobs c info (suc left) i) ≡ drop (i * c) file
  unfolding chunk_jobs
  joined-chunk_jobs c info file zero i o e =
      let j : i + 1 - 1 ≡ i = omega arith in
      let last = rw j at (last_job-bytes (job_of c info i) file o (omega arith)) in
      ap (λ ys. ys ++ []) last ∙ append-nil _ ∙ append-nil _
  joined-chunk_jobs c info file (suc left) i o e =
      let j : i + 1 - 1 ≡ i = omega arith in
      let first = rw j at (job-bytes (job_of c info i) file o (omega arith)) in
      let rest = joined-chunk_jobs c info file left (i + 1) o (omega arith) in
      let next : (i + 1) * c ≡ i * c + c = omega (arith, suc-mul i c) in
      ap (λ ys. ys ++ joined open_file (chunk_jobs c info (suc left) (i + 1)))
        (first ∙ append-nil _)
      ∙ ap (λ ys. take c (drop (i * c) file) ++ ys) (rest ∙ ap (λ n. drop n file) next)
      ∙ take-drop-append c (i * c) file

  joined-append :
      (xs ys : List UploadChunkJob)
      → joined open_file (xs ++ ys) ≡ joined open_file xs ++ joined open_file ys
  joined-append [] ys = refl
  joined-append (x ∷ xs) ys =
      ap (λ zs. bytes_of (write_multipart_request open_file x []).1 ++ zs) (joined-append xs ys)
      ∙ sym (append_assoc (bytes_of (write_multipart_request open_file x []).1) _ _)

-- The files on the disk, by their names.
module _ (content : String → List ℕ) where
  abbrev pub open_content : String → Result (List ℕ)
  open_content name = ok (content name)

  abbrev pub stat_content : String → Result ℕ
  stat_content name = ok (length (content name))

  abbrev contents : List String → List ℕ
  contents [] = []
  contents (name ∷ names) = content name ++ contents names

  file_joined :
      (c : ℕ) (name : String) (t : ℕ)
      → total_chunks_of (length (content name)) c ≡ t
      → 0 < c
      → joined open_content (chunk_jobs c (record { name = name; total_chunks = t }) t 0)
        ≡ content name
  unfolding chunk_jobs
  file_joined c name zero e h = sym (length-zero (content name) (total_chunks-zero _ c h e))
  file_joined c name (suc t) e h =
      let z : 0 * c ≡ 0 = omega arith in
      joined-chunk_jobs open_content c (record { name = name; total_chunks = suc t }) (content name)
        t 0 refl (omega arith)
      ∙ ap (λ n. drop n (content name)) z

  -- For any positive chunk size, the requests of all jobs together carry the files' bytes, in order
  -- and each once.
  pub send_jobs-joined :
      (c : ℕ) (names : List String)
      → 0 < c
      → (infos : List FileInfo) × (get_files_infos stat_content c names ≡ ok infos)
        × (joined open_content (send_jobs c infos) ≡ contents names)
  unfolding get_files_infos send_jobs
  send_jobs-joined c [] h = ([], refl, refl)
  send_jobs-joined c (name ∷ names) h =
      let (infos, e, j) = send_jobs-joined c names h in
      let info : FileInfo = record {
        name = name;
        total_chunks = total_chunks_of (length (content name)) c;
      } in
      (
        info ∷ infos,
        rw e refl,
        joined-append open_content (chunk_jobs c info info.total_chunks 0) (send_jobs c infos)
            ∙ ap (λ ys. ys ++ joined open_content (send_jobs c infos)) (file_joined c name _ refl h)
            ∙ ap (λ ys. content name ++ ys) j,
      )

module _ (content : String → List ℕ) (c i t : ℕ) (name : String) where
  abbrev job : UploadChunkJob
  job = job_of c (record { name = name; total_chunks = suc t }) i

  abbrev written : Result (Unit {0}) × List Part
  written = write_multipart_request (open_content content) job []

  middle_written :
      i < t
      → i * c + c ≤ length (content name)
      → (written.0 ≡ ok tt) × (length (bytes_of written.1) ≡ c)
  unfolding write_multipart_request
  middle_written h k =
      let m : ltb (i + 1) (suc t) ≡ true = ground arith in
      let j : i + 1 - 1 ≡ i = omega arith in
      let d = length-drop (i * c) (content name) in
      let f : ltb (length (drop (i * c) (content name))) c ≡ false = ground arith in
      let n = length-take c (drop (i * c) (content name)) (omega arith) in
      rw (m, j, f, append-nil (take c (drop (i * c) (content name)))) (refl, n)

  last_written :
      i ≡ t → (written.0 ≡ ok tt) × (length (bytes_of written.1) ≡ length (content name) - i * c)
  unfolding write_multipart_request
  last_written h =
      let m : ltb (i + 1) (suc t) ≡ false = ground arith in
      let j : i + 1 - 1 ≡ i = omega arith in
      rw (m, j, append-nil (drop (i * c) (content name))) (refl, length-drop (i * c) (content name))

  -- Every chunk that is counted can be read: its request is written without error and carries
  -- between one byte and the chunk size.
  chunk_written :
      0 < c
      → i < suc t
      → total_chunks_of (length (content name)) c ≡ suc t
      → (written.0 ≡ ok tt) × (0 < length (bytes_of written.1)) × (length (bytes_of written.1) ≤ c)
  chunk_written h lt e =
      let (lo, hi) = total_chunks-bounds (length (content name)) c t h e in
      elim (Bool-cases (ltb i t)) [
        | inl middle ↦
            let below : suc i * c ≤ t * c = mul-le-mul_right c (ground arith) in
            let (w, n) = middle_written (ground arith) (omega (arith, suc-mul i c)) in
            (w, omega arith, omega arith)
        | inr last ↦
            let at_end : i ≡ t = ground arith in
            let (w, n) = last_written at_end in
            let q : i * c ≡ t * c = ap (λ z. z * c) at_end in (w, omega arith, omega arith)
      ]
