-- ===== src/Scan.antt =====
-- The search for contexts in scan.c with the comparisons of sort.c that it sorts by. The backends and `qsort`
-- are parameters.
pub mod Order
pub mod Distinct
pub mod Search
mod Tests
use mathlib.Core.List.{map}
use libiio.Prelude.{
  ℕ, suc, ◌+◌, ◌-◌, ltb, leb, ◌==◌, Bool, true, false, ◌&&◌, if◌then◌else◌, List, [], ◌∷◌, ◌++◌,
  Option, none, some, length, get_elem?, take, drop, ℤ, pos, negsuc, is_negative,
}

-- the sign of the int that a comparison returns, which is all that `qsort` reads
pub data Sign : Type 0 where
  precedes : Sign
  equals : Sign
  follows : Sign

abbrev pub is_equal : Sign → Bool
is_equal precedes = false
is_equal equals = true
is_equal follows = false

-- a first comparison, and another that decides where it finds no difference
unfoldable pub or_then : Sign → Sign → Sign
or_then precedes r = precedes
or_then equals r = r
or_then follows r = follows

-- `strcmp` on texts of unsigned chars without their terminator
unfoldable pub strcmp : List ℕ → List ℕ → Sign
strcmp [] [] = equals
strcmp [] (y ∷ ys) = precedes
strcmp (x ∷ xs) [] = follows
strcmp (x ∷ xs) (y ∷ ys) =
    let rest = strcmp xs ys in if ltb x y then precedes else if ltb y x then follows else rest

-- `struct iio_context_info`
pub record ContextInfo : Type 0 where
  pub description : List ℕ
  pub uri : List ℕ

-- An entry of the list: a duplicate has had both of its texts freed.
abbrev pub Entry : Type 0
Entry = Option ContextInfo

-- `iio_context_info_compare` where both have their texts
unfoldable pub order : ContextInfo → ContextInfo → Sign
order x y = or_then (strcmp x.uri y.uri) (strcmp x.description y.description)

-- `iio_context_info_compare`
unfoldable pub context_info_compare : Entry → Entry → Sign
context_info_compare none y = follows
context_info_compare (some x) none = equals
context_info_compare (some x) (some y) = order x y

-- the test for a duplicate
unfoldable pub is_duplicate : ContextInfo → ContextInfo → Bool
is_duplicate x y = is_equal (strcmp x.uri y.uri) && is_equal (strcmp x.description y.description)

-- An entry that equals the one behind it is freed; an entry without texts stands only where one was freed.
unfoldable pub free_duplicates : List Entry → List Entry × ℕ
free_duplicates [] = ([], 0)
free_duplicates (none ∷ rest) = let (es, j) = free_duplicates rest in (none ∷ es, j)
free_duplicates (some x ∷ []) = (some x ∷ [], 0)
free_duplicates (some x ∷ none ∷ rest) =
    let (es, j) = free_duplicates (none ∷ rest) in (some x ∷ es, j)
free_duplicates (some x ∷ some y ∷ rest) =
    let (es, j) = free_duplicates (some y ∷ rest) in
    if is_duplicate x y then (none ∷ es, suc j) else (some x ∷ es, j)

-- which backends libiio was built with
pub record Build : Type 0 where
  pub with_local_backend : Bool
  pub with_usb_backend : Bool
  pub have_dns_sd : Bool

-- what a backend answers: a status that is negative on an error, and the contexts that it adds
pub record Scanners : Type 0 where
  pub local_context_scan : ℤ × List ContextInfo
  pub usb_context_scan : Option (List ℕ) → ℤ × List ContextInfo
  pub dnssd_context_scan : ℤ × List ContextInfo

abbrev pub enodev : ℤ
enodev = negsuc 18

abbrev local_token : List ℕ
local_token = b'l' ∷ b'o' ∷ b'c' ∷ b'a' ∷ b'l' ∷ []

abbrev usb_token : List ℕ
usb_token = b'u' ∷ b's' ∷ b'b' ∷ []

abbrev ip_token : List ℕ
ip_token = b'i' ∷ b'p' ∷ []

-- `strncmp(token, "usb=", 4)` and what stands behind it
abbrev has_arguments : List ℕ → Bool
has_arguments token = is_equal (strcmp (take 4 token) (usb_token ++ b'=' ∷ []))

-- the body of the loop over the tokens
unfoldable pub scan_backend : Build → Scanners → List ℕ → ℤ × List ContextInfo
scan_backend build scanners token =
    if build.with_local_backend && is_equal (strcmp token local_token)
    then scanners.local_context_scan
    else if build.with_usb_backend && is_equal (strcmp token usb_token)
    then scanners.usb_context_scan none
    else if build.with_usb_backend && has_arguments token
    then scanners.usb_context_scan (some (drop 4 token))
    else if build.have_dns_sd && is_equal (strcmp token ip_token)
    then scanners.dnssd_context_scan
    else (enodev, [])

-- the loop over the tokens that `strtok_r` finds; the first error ends it
unfoldable pub scan_backends : Build → Scanners → List (List ℕ) → ℤ × List ContextInfo
scan_backends build scanners [] = (pos 0, [])
scan_backends build scanners (token ∷ tokens) =
    let (ret, found) = scan_backend build scanners token in
    let (ret', rest) = scan_backends build scanners tokens in
    if is_negative ret then (ret, []) else (ret', found ++ rest)

abbrev pub Qsort : Type 0
Qsort = (Entry → Entry → Sign) → List Entry → List Entry

-- The sort and the loop over duplicates: the array before the freed entries are sorted away, and their number.
-- One context alone is not sorted.
unfoldable pub marked : Qsort → List ContextInfo → List Entry × ℕ
marked qsort found =
    if ltb 1 (length found)
    then free_duplicates (qsort context_info_compare (map some found))
    else (map some found, 0)

-- the end of `iio_scan_context_get_info_list`: the array and the number of its entries that count
unfoldable pub deduplicate : Qsort → List ContextInfo → List Entry × ℕ
deduplicate qsort found =
    let (entries, j) = marked qsort found in
    (if j == 0 then entries else qsort context_info_compare entries, length found - j)

-- `iio_scan_context_get_info_list`
unfoldable pub get_info_list : Qsort → Build → Scanners → List (List ℕ) → ℤ × Option (List Entry)
get_info_list qsort build scanners tokens =
    let (ret, found) = scan_backends build scanners tokens in
    let (entries, count) = deduplicate qsort found in
    if is_negative ret then (ret, none) else (pos count, some entries)

-- `struct iio_scan_block`, less the context that it scans
pub record ScanBlock : Type 0 where
  pub info : Option (List Entry)
  pub ctx_cnt : ℤ

-- `iio_scan_block_scan`
unfoldable pub block_scan : Qsort → Build → Scanners → List (List ℕ) → ScanBlock → ℤ × ScanBlock
block_scan qsort build scanners tokens blk =
    let (ret, info) = get_info_list qsort build scanners tokens in
    (ret, record { info = info; ctx_cnt = ret })

-- `(ssize_t) index >= ctx_cnt`
abbrev reaches : ℕ → ℤ → Bool
reaches index (pos n) = leb n index
reaches index (negsuc n) = true

-- `iio_scan_block_get_info`; `none` for NULL
unfoldable pub block_get_info : ScanBlock → ℕ → Option Entry
block_get_info blk index = elim blk.info [
  | none ↦ none
  | some entries ↦ if reaches index blk.ctx_cnt then none else get_elem? entries index
]
