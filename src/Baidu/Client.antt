-- ===== src/Baidu/Client.antt =====
-- internal/baidu/client.go as the client of internal/remote/remote.go: what the reader makes of the answers.
pub mod Exact
use baidu_disk_link.Common.{ℕ, Option, none, some, List, [], ◌∷◌}
use baidu_disk_link.Common.Decimal.{ℤ, pos}
use baidu_disk_link.ChunkStore.Types.{Bytes}
use baidu_disk_link.Remote.Errors.{Failure, short_read, Outcome, ok, err}
use baidu_disk_link.Remote.Reader.{Link, Client}
use baidu_disk_link.Baidu.Network.{Cause, raise, Network}
use baidu_disk_link.Baidu.Account.{DownloadLink, Account, Decoder, get_download_link, refresh_auth}
use baidu_disk_link.Baidu.Download.{Received, read_range}

-- the bytes count where there is no error
unfoldable pub outcome : Received → Outcome Bytes
outcome got = elim got.failure [ none ↦ ok got.bytes | some e ↦ err e ]

unfoldable pub link_outcome : Outcome DownloadLink → Outcome Link
link_outcome (ok link) = ok (record { expires = link.expires_at })
link_outcome (err e) = err e

module _ {W : Type 0} (network : Network W) (decoder : Decoder)
    (on_update : Bytes → Bytes → W → W × Option Cause) where
  unfoldable pub read_block : Account × W → Bytes → ℕ → ℕ → (Account × W) × Outcome Bytes
  unfolding outcome read_range
  read_block (a, w) fsid offset count =
      elim (read_range network decoder fsid (pos offset) count a w) [
        | none ↦ ((a, w), err short_read)
        | some answer ↦ (answer.0, outcome answer.1)
      ]

  unfoldable pub api_client : Client (Account × W)
  unfolding read_block link_outcome get_download_link refresh_auth
  api_client = record {
    read_range = read_block;
    refresh_auth = λ c. (refresh_auth network decoder on_update c.0 c.1).0;
    get_download_link = λ c fsid.
        let linked = get_download_link network decoder fsid c.0 c.1 in
        (linked.0, link_outcome linked.1);
    context_error =
        λ c. elim (network.stopped c.1) [ none ↦ none | some cause ↦ some (raise cause) ];
  }
