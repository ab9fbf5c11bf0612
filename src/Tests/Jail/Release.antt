-- ===== src/Tests/Jail/Release.antt =====
-- A release that is not there yet.
use nodemanager.Common.{[], false, ok, refl, ◌+◌, ◌≡◌}
use nodemanager.Jail.Release.{Outside, download, ensure, freebsd_arch, release_url, unpack}
use nodemanager.Jail.Release.Fetch.{EndsExtracted, created, ensure-EndsExtracted, removed}

abbrev outside : Outside
outside = record {
  done_answer = λ h. ok tt;
  is_there = λ h. false;
  temp_answer = λ h. ok "nodemanager-base-1.txz";
  status_answer = λ h. ok 200;
  request_answer = λ url. ok tt;
  mirror = "https://download.freebsd.org/releases";
  goarch = "arm64";
}

ensured : (ensure outside "14.2-RELEASE" []).0 ≡ ok tt
unfolding ensure unpack download
ensured = refl

url :
    release_url outside "14.2-RELEASE"
    ≡ "https://download.freebsd.org/releases/arm64/aarch64/14.2-RELEASE/base.txz"
unfolding release_url freebsd_arch
url = refl

ensure-EndsExtracted_example :
    (created outside (ensure outside "14.2-RELEASE" []).1 + 0
      ≡ 0 + removed (ensure outside "14.2-RELEASE" []).1)
    × ((ensure outside "14.2-RELEASE" []).0 ≡ ok tt
        → EndsExtracted outside "14.2-RELEASE" (ensure outside "14.2-RELEASE" []).1)
ensure-EndsExtracted_example = ensure-EndsExtracted outside "14.2-RELEASE" []
