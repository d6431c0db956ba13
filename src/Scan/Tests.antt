-- ===== src/Scan/Tests.antt =====
-- A search with a sort by insertion, and the witnesses of the theorems.
use libiio.Prelude.{
  ℕ, ◌≡◌, refl, true, false, Bool, if◌then◌else◌, List, [], ◌∷◌, some, none, pos, negsuc,
}
use libiio.Scan.{
  Sign, precedes, equals, follows, strcmp, order, or_then, context_info_compare, is_duplicate,
  free_duplicates, marked, deduplicate, scan_backend, scan_backends, get_info_list, block_scan,
  ContextInfo, Entry, Qsort, Build, Scanners, ScanBlock,
}

abbrev is_follows : Sign → Bool
is_follows precedes = false
is_follows equals = false
is_follows follows = true

unfoldable insert : (Entry → Entry → Sign) → Entry → List Entry → List Entry
insert c d [] = d ∷ []
insert c d (e ∷ es) =
    let rest = insert c d es in if is_follows (c d e) then e ∷ rest else d ∷ e ∷ es

unfoldable insertion_sort : Qsort
insertion_sort c [] = []
insertion_sort c (e ∷ es) = insert c e (insertion_sort c es)

abbrev usb_device : ContextInfo
usb_device = record { description = b'r' ∷ []; uri = b'u' ∷ b':' ∷ b'1' ∷ [] }

abbrev ip_device : ContextInfo
ip_device = record { description = b'r' ∷ []; uri = b'i' ∷ b':' ∷ [] }

abbrev found : List ContextInfo
found = usb_device ∷ ip_device ∷ usb_device ∷ []

-- The duplicate is at the end, freed.
deduplicated : deduplicate insertion_sort found ≡ (some ip_device ∷ some usb_device ∷ none ∷ [], 2)
unfolding deduplicate marked insertion_sort insert context_info_compare order or_then strcmp
    is_duplicate free_duplicates
deduplicated = refl

abbrev build : Build
build = record { with_local_backend = false; with_usb_backend = true; have_dns_sd = true }

abbrev scanners : Scanners
scanners = record {
  local_context_scan = (pos 0, []);
  usb_context_scan = λ arguments. (pos 0, usb_device ∷ usb_device ∷ []);
  dnssd_context_scan = (pos 0, ip_device ∷ []);
}

abbrev tokens : List (List ℕ)
tokens = (b'i' ∷ b'p' ∷ []) ∷ (b'u' ∷ b's' ∷ b'b' ∷ b'=' ∷ b'1' ∷ []) ∷ []

abbrev empty_block : ScanBlock
empty_block = record { info = none; ctx_cnt = pos 0 }

scanned : (block_scan insertion_sort build scanners tokens empty_block).0 ≡ pos 2
unfolding block_scan get_info_list scan_backends scan_backend deduplicate marked insertion_sort
    insert context_info_compare order or_then strcmp is_duplicate free_duplicates
scanned = refl

-- A build without the local backend does not know its name.
not_built :
    (block_scan insertion_sort build scanners
      ((b'l' ∷ b'o' ∷ b'c' ∷ b'a' ∷ b'l' ∷ []) ∷ [])
      empty_block).0
    ≡ negsuc 18
unfolding block_scan get_info_list scan_backends scan_backend strcmp
not_built = refl

-- two backends that find a context each
abbrev two_tokens : List (List ℕ)
two_tokens = (b'i' ∷ b'p' ∷ []) ∷ (b'u' ∷ b's' ∷ b'b' ∷ []) ∷ []

abbrev apart_scanners : Scanners
apart_scanners = record {
  local_context_scan = (pos 0, []);
  usb_context_scan = λ arguments. (pos 0, usb_device ∷ []);
  dnssd_context_scan = (pos 0, ip_device ∷ []);
}
