-- ===== src/Client/Upload/Results.antt =====
-- When an upload succeeds.
use cloud_android_orchestrat.Errors.{GoError}
use cloud_android_orchestrat.Exec.{ok}
use cloud_android_orchestrat.Client.Upload.Chunks.{send_jobs-joined, stat_content}
use cloud_android_orchestrat.Prelude.{
  All, List, Option, String, [], arith, false, none, refl, some, ℕ, ◌<◌, ◌==◌, ◌↔◌, ◌∷◌, ◌≡◌,
}
use cloud_android_orchestrat.Client.Upload.{
  FileInfo, UploadChunkJob, as_result, first_error, get_files_infos, send_jobs, upload_files,
}

first_error-none :
    (results : List (Option GoError)) → first_error results ≡ none → All (λ r. r ≡ none) results
unfolding first_error
first_error-none [] e = tt
first_error-none (none ∷ rs) e = (refl, first_error-none rs e)
first_error-none (some x ∷ rs) e = absurd (ground arith)

none-first_error :
    (results : List (Option GoError)) → All (λ r. r ≡ none) results → first_error results ≡ none
unfolding first_error
none-first_error [] h = refl
none-first_error (none ∷ rs) (h, hs) = none-first_error rs hs
none-first_error (some x ∷ rs) (h, hs) = absurd (ground arith)

as_result_ok : (e : Option GoError) → (as_result e ≡ ok tt) ↔ (e ≡ none)
as_result_ok none = (λ h. refl, λ h. refl)
as_result_ok (some e) = (λ h. absurd (ground arith), λ h. absurd (ground arith))

-- An upload succeeds exactly when the chunk size is not 0 and no result of the jobs, into which the
-- files are cut, is an error, in whatever order the workers deliver them. (The chunk size 0 ends
-- the program.)
upload_files_ok_iff :
    (content : String → List ℕ) (run : List UploadChunkJob → List (Option GoError)) (c : ℕ)
    (names : List String)
    → 0 < c
    → (infos : List FileInfo) × (get_files_infos (stat_content content) c names ≡ ok infos)
      × ((upload_files (stat_content content) run c names ≡ ok tt)
          ↔ All (λ r. r ≡ none) (run (send_jobs c infos)))
unfolding upload_files
upload_files_ok_iff content run c names h =
    let (infos, e, j) = send_jobs-joined content c names h in
    let z : (c == 0) ≡ false = ground arith in
    let (there, back) = as_result_ok (first_error (run (send_jobs c infos))) in
    (
      infos,
      e,
      rw (z, e)
          (
            (λ k. first_error-none (run (send_jobs c infos)) (there k)),
            (λ k. back (none-first_error (run (send_jobs c infos)) k)),
          ),
    )
