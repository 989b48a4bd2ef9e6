-- ===== src/Tests/Listings.antt =====
-- The listing of a store that holds tokens of two repos, out of their order.
use gitrdone.Common.{◌≡◌, ◌↔◌, equal, refl, List, [], ◌∷◌, list_eq, nat_eq}
use gitrdone.Common.Dict.{lookup, insert}
use gitrdone.Common.Int.{pos}
use gitrdone.Common.Lists.{Among}
use gitrdone.Memory.{MemoryRepoStore, add_token, stored_token}
use gitrdone.Memory.Listing.{
  token_before, list_repo_tokens, Sorted, ListedFor, list_repo_tokens-Sorted,
}
use gitrdone.Repository.{RepoTokenRecord}
use gitrdone.Result.{ok}
use gitrdone.Tests.Stores.{repo_uuid, repo_store, demo_token}
use gitrdone.Text.{Bytes, codes, str_ltb}
use gitrdone.Time.{Time, before}

abbrev token_at : Bytes → Time → RepoTokenRecord
token_at id created_at = record demo_token { id = id; token_hash = id; created_at = created_at }

abbrev of_another_repo : RepoTokenRecord
of_another_repo = record (token_at (codes "t3") (pos 1)) { repo_id = codes "another" }

abbrev crowded_store : MemoryRepoStore
crowded_store = add_token (token_at (codes "t1") (pos 5)) (
    add_token of_another_repo (
      add_token (token_at (codes "t2") (pos 5))
        (add_token (token_at (codes "t0") (pos 9)) repo_store)))

abbrev crowd : List RepoTokenRecord
crowd =
    stored_token (token_at (codes "t1") (pos 5))
    ∷ stored_token (token_at (codes "t2") (pos 5))
    ∷ stored_token (token_at (codes "t0") (pos 9))
    ∷ []

crowd-listed : list_repo_tokens repo_uuid crowded_store ≡ ok crowd
unfolding list_repo_tokens lookup insert equal token_before str_ltb before
crowd-listed = refl

list_repo_tokens-Sorted_example :
    Sorted crowd
    × ((v : RepoTokenRecord) → Among v crowd ↔ ListedFor repo_uuid crowded_store.tokens v)
list_repo_tokens-Sorted_example = list_repo_tokens-Sorted repo_uuid crowded_store crowd crowd-listed
