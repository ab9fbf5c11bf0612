-- ===== src/Jail/Release.antt =====
-- pkg/jail/release.go. The ZFS manager and the command runner are interfaces in the code and calls
-- here; so are the HTTP client and the file system. Names of releases stand for their paths.
pub mod Fetch
use nodemanager.Common.{Bool, Error, Io, List, Result, String, [], ask, attempt, if◌then◌else◌}
use nodemanager.Common.{lift, nat_eq, new_error, not, on_error, perform, pure, raise, relabel}
use nodemanager.Common.{sprint, wrap, ℕ, ◌==◌, ◌>>=◌, ◌>>◌, ◌∷◌}

-- One call to the outside.
pub data Op : Type 0 where
  ensure_release_dataset : (version : String) → Op
  stat_version_file : (version : String) → Op
  create_temp : Op
  send_request : (url : String) → Op
  copy_body : (temp : String) → Op
  close_body : Op
  close_temp : (temp : String) → Op
  make_release_root : (version : String) → Op
  extract : (temp version : String) → Op
  remove_temp : (temp : String) → Op

-- What the outside answers, and what the manager was made with: `goarch` is the architecture of the
-- build, `request_answer` what http.NewRequestWithContext makes of a URL.
pub record Outside : Type 0 where
  pub done_answer : List Op → Result (Unit {0})
  pub is_there : List Op → Bool
  pub temp_answer : List Op → Result String
  pub status_answer : List Op → Result ℕ
  pub request_answer : String → Result (Unit {0})
  pub mirror : String
  pub goarch : String

unfoldable pub freebsd_arch : String → String × String
freebsd_arch goarch =
    if goarch == "amd64"
    then ("amd64", "amd64")
    else if goarch == "arm64"
    then ("arm64", "aarch64")
    else if goarch == "arm"
    then ("arm", "armv7")
    else (goarch, goarch)

-- A call that is deferred: it is made at the end, whatever `m` ends in, and its error is dropped.
abbrev pub deferred : {A : Type 0} → Op → Io Op A → Io Op A
deferred op m h = let (r, h') = m h in (r, op ∷ h')

abbrev pub status_ok : ℕ
status_ok = 200

abbrev pub about : String → String → Error → Error
about what name = wrap (sprint (what ∷ name ∷ []))

module _ (o : Outside) where
  unfoldable pub release_url : String → String
  unfolding freebsd_arch
  release_url version =
      let (machine, processor) = freebsd_arch o.goarch in
      sprint (o.mirror ∷ "/" ∷ machine ∷ "/" ∷ processor ∷ "/" ∷ version ∷ "/base.txz" ∷ [])

  -- The body of the answer goes into the file.
  abbrev pub read_body : ℕ → String → Io Op (Unit {0})
  read_body status temp =
      if not (nat_eq status status_ok)
      then raise (new_error "unexpected HTTP status")
      else on_error (wrap "writing download") (perform (copy_body temp) o.done_answer)

  unfoldable pub download : String → String → Io Op (Unit {0})
  download url temp = do
    lift (o.request_answer url)
    status ← perform (send_request url) o.status_answer
    deferred close_body (read_body status temp)

  -- From the download to the extraction.
  unfoldable pub unpack : String → String → Io Op (Unit {0})
  unpack version temp = do
    downloaded ← attempt (download (release_url version) temp)
    ask (close_temp temp) (λ h. tt {0})
    lift (relabel (about "downloading " (release_url version)) downloaded)
    on_error (about "creating release root of " version)
        (perform (make_release_root version) o.done_answer)
    on_error (about "extracting release " version) (perform (extract temp version) o.done_answer)

  abbrev pub fetch : String → Io Op (Unit {0})
  fetch version = do
    temp ←
        on_error (wrap "creating temp file for release download")
          (perform create_temp o.temp_answer)
    deferred (remove_temp temp) (unpack version temp)

  unfoldable pub ensure : String → Io Op (Unit {0})
  ensure version = do
    on_error (about "ensuring release dataset of " version)
        (perform (ensure_release_dataset version) o.done_answer)
    extracted ← ask (stat_version_file version) o.is_there
    if extracted then pure tt else fetch version
