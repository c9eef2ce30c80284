-- ===== src/Hash/Samples.antt =====
-- The known answers of SHA-256 from the unit tests.
use weavatrix_scan.Common.{◌≡◌, refl}
use weavatrix_scan.Text.{bytes}
use weavatrix_scan.Hash.{
  new, copy_into, write, write_rest, write_buffered, write_blocks, finish, finish_state,
}
use weavatrix_scan.Hash.Compress.{compress}
use weavatrix_scan.Hash.Word.{hex, be_bytes}

sha_abc :
    finish (write new (bytes "abc"))
    ≡ bytes "sha256:ba7816bf8f01cfea414140de5dae2223b00361a396177a9cb410ff61f20015ad"
unfolding new copy_into write write_rest write_buffered write_blocks finish finish_state compress
    hex be_bytes
sha_abc = refl

-- The last two bytes do not fit beside the length, so the padding fills a block of its own.
sha_two_blocks :
    finish (
      write
        (write new (bytes "abcdbcdecdefdefgefgh"))
        (bytes "fghighijhijkijkljklmklmnlmnomnopnopq"))
    ≡ bytes "sha256:248d6a61d20638b8e5c026930c3e6039a33ce45964ff2167f6ecedd419db06c1"
unfolding new copy_into write write_rest write_buffered write_blocks finish finish_state compress
    hex be_bytes
sha_two_blocks = refl
