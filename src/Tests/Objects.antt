-- ===== src/Tests/Objects.antt =====
-- An upload of five bytes to a disk that is a map from paths to contents (internal/http/git_lfs.go and
-- internal/http/git_lfs_storage.go).
use gitrdone.Common.{
  ℕ, suc, ◌+◌, ◌^◌, ◌<◌, ◌≡◌, refl, sym, ap, ◌∙◌, ◌++◌, Bool, true, false, Option, none, some, List,
  [], ◌∷◌, equal, nat_eq, list_eq, length, arith,
}
use gitrdone.Common.Dict.{Dict, lookup, insert, lookup-insert_self}
use gitrdone.Common.Int.{ℤ, pos, eqb_ℤ}
use gitrdone.Http.{malformed}
use gitrdone.Lfs.Handler.{git_lfs_handler, serve_lfs_upload}
use gitrdone.Lfs.Protocol.{LfsRequest}
use gitrdone.Lfs.Refusal.{LfsRefused, git_lfs_handler-LfsRefused}
use gitrdone.Lfs.Store.{
  done, Reader, Stat, absent, found, Opened, file, FileSystem, filesystem_lfs_object_store, put,
  open_object, exists, normalize_max_lfs_object_bytes,
}
use gitrdone.Lfs.Stored.{FileSystemLaws, open_object-put}
use gitrdone.Lfs.Upload.{Uploaded, serve_lfs_upload-Uploaded}
use gitrdone.Repository.{AuthorizeGitAccessInput, GitAccessGrant}
use gitrdone.Result.{Result, ok, err, repo_token_invalid}
use gitrdone.Secrets.{fill, hex_encode}
use gitrdone.Text.{Bytes, codes}
use gitrdone.Tests.Stores.{repo_uuid}

abbrev Disk : Type 0
Disk = Dict Bytes Bytes

abbrev content_of : Option Bytes → Bytes
content_of none = []
content_of (some content) = content

abbrev stat_of : Option Bytes → Stat
stat_of none = absent
stat_of (some content) = found true (length content)

abbrev opened_of : Option Bytes → Opened
opened_of none = absent
opened_of (some content) = file (ok (true, length content)) content

abbrev map_disk : FileSystem Disk
map_disk = record {
  mkdir_all = λ folder files. (done tt, files);
  create_temp = λ folder files. (done (folder ++ codes "/.upload-1"), files);
  write = λ path content files. (none, insert path content files);
  close = λ path files. (none, files);
  remove = λ path files. insert path [] files;
  rename = λ old new files. (done tt, insert new (content_of (lookup old files)) files);
  stat = λ path files. stat_of (lookup path files);
  open_file = λ path files. opened_of (lookup path files);
}

renamed :
    (temp path content : Bytes) (f₁ f₂ f₃ f₄ : Disk)
    → insert temp content f₁ ≡ f₂
    → f₂ ≡ f₃
    → insert path (content_of (lookup temp f₃)) f₃ ≡ f₄
    → lookup path f₄ ≡ some content
renamed temp path content f₁ f₂ f₃ f₄ e₂ e₃ e₄ =
    ap (lookup path) (sym e₄)
    ∙ lookup-insert_self path (content_of (lookup temp f₃)) f₃
    ∙ ap (λ files. some (content_of (lookup temp files))) (sym (e₂ ∙ e₃))
    ∙ ap (λ found. some (content_of found)) (lookup-insert_self temp content f₁)

map_disk-FileSystemLaws : FileSystemLaws map_disk
map_disk-FileSystemLaws = record {
  stat = λ folder temp path content f₀ f₁ f₂ f₃ f₄ c w k r. ap stat_of (
      renamed temp path content f₁ f₂ f₃ f₄ (ap (λ out. out.1) w) (ap (λ out. out.1) k)
        (ap (λ out. out.1) r));
  open_file = λ folder temp path content f₀ f₁ f₂ f₃ f₄ c w k r. ap opened_of (
      renamed temp path content f₁ f₂ f₃ f₄ (ap (λ out. out.1) w) (ap (λ out. out.1) k)
        (ap (λ out. out.1) r));
}

abbrev join : List Bytes → Bytes
join [] = []
join (part ∷ parts) = part ++ (codes "/" ++ join parts)

abbrev folder : Bytes → Bytes
folder path = path ++ codes ".d"

-- a hash of 32 zero bytes
abbrev zeros : Bytes → Bytes
zeros content = fill 32 []

abbrev zero_oid : Bytes
zero_oid = codes "0000000000000000000000000000000000000000000000000000000000000000"

abbrev hello : Reader
hello = record { bytes = codes "hello"; failure = none }

abbrev uploaded : Disk
uploaded =
    (put map_disk join folder zeros (codes "/srv") none repo_uuid zero_oid (pos 5) (pos 10) hello
      []).1

uploads :
    put map_disk join folder zeros (codes "/srv") none repo_uuid zero_oid (pos 5) (pos 10) hello []
    ≡ (done tt, uploaded)
unfolding put gitrdone.Common.Int.wrap64 equal hex_encode fill
uploads = refl

limit_10 : normalize_max_lfs_object_bytes (pos 10) ≡ pos 10
unfolding normalize_max_lfs_object_bytes
limit_10 = refl

open_object-put_example :
    (open_object map_disk join folder zeros (codes "/srv") none repo_uuid zero_oid uploaded
      ≡ done (record { size = pos 5; body = codes "hello" }))
    × ((asked : ℤ)
        → exists map_disk join folder zeros (codes "/srv") none repo_uuid zero_oid asked uploaded
          ≡ done (eqb_ℤ (pos 5) asked))
open_object-put_example =
    open_object-put map_disk join folder zeros (codes "/srv") repo_uuid zero_oid (pos 5) (pos 10) 10
      hello [] uploaded map_disk-FileSystemLaws limit_10 (omega arith) uploads

abbrev put_request : LfsRequest
put_request = record {
  git = record {
    repo_id = codes "repo_" ++ repo_uuid;
    git_path = [];
    spec = [];
    method = codes "PUT";
    service = [];
    basic_auth = some (codes "t", codes "gtd_t");
    authorization = [];
  };
  path = [];
  oid = zero_oid;
  tls = false;
  forwarded_proto = [];
  host = codes "git.example";
  content_length = pos 5;
  body = hello;
  batch = record { first = malformed; trailing = malformed };
}

-- an authorizer that counts its calls
abbrev all_granted : AuthorizeGitAccessInput → ℕ → Result (GitAccessGrant × ℕ)
all_granted input calls =
    ok (
      record { repo_id = input.repo_id; repo_path = codes "/git"; subject = codes "ci" },
      calls + 1,
    )

accepted :
    (serve_lfs_upload all_granted
      (filesystem_lfs_object_store map_disk join folder zeros (codes "/srv"))
      put_request
      repo_uuid
      (pos 10)
      0
      []).0.status
    ≡ 200
unfolding serve_lfs_upload gitrdone.Lfs.Protocol.parse_lfs_oid gitrdone.Text.trim_space
    gitrdone.Ids.is_lower_hex_digit put gitrdone.Lfs.Handler.max_bytes_reader
    gitrdone.Common.Int.wrap64 equal hex_encode fill
accepted = refl

serve_lfs_upload-Uploaded_example :
    Uploaded all_granted map_disk join folder zeros
      (codes "/srv")
      put_request
      repo_uuid
      10
      0
      (serve_lfs_upload all_granted
        (filesystem_lfs_object_store map_disk join folder zeros (codes "/srv"))
        put_request
        repo_uuid
        (pos 10)
        0
        []).1
      (serve_lfs_upload all_granted
        (filesystem_lfs_object_store map_disk join folder zeros (codes "/srv"))
        put_request
        repo_uuid
        (pos 10)
        0
        []).2
serve_lfs_upload-Uploaded_example =
    serve_lfs_upload-Uploaded all_granted map_disk join folder zeros (codes "/srv") put_request
      repo_uuid 9 0 [] (omega arith) accepted

abbrev none_granted : AuthorizeGitAccessInput → ℕ → Result (GitAccessGrant × ℕ)
none_granted input calls = err repo_token_invalid

git_lfs_handler-LfsRefused_example : LfsRefused 0 [] (
    git_lfs_handler none_granted
      (some (filesystem_lfs_object_store map_disk join folder zeros (codes "/srv")))
      put_request
      (pos 10)
      0
      [])
git_lfs_handler-LfsRefused_example =
    git_lfs_handler-LfsRefused none_granted
      (filesystem_lfs_object_store map_disk join folder zeros (codes "/srv")) put_request 0 []
      (λ repo_id operation. (repo_token_invalid, refl)) (pos 10)
