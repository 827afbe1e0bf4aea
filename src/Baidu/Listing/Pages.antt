-- ===== src/Baidu/Listing/Pages.antt =====
-- internal/baidu/client.go: the pages of `List` against the whole listing.
use baidu_disk_link.Common.{
  ℕ, zero, suc, ◌+◌, ◌≤◌, ◌<◌, ◌≡◌, ◌≢◌, ◌⊎◌, refl, sym, ap, subst, ◌∙◌, true, false, none, some,
  List, [], ◌∷◌, ◌++◌, inl, inr, length, take, drop, map, arith, Option-cases, Bool-cases,
}
use baidu_disk_link.Common.Decimal.{ℤ, pos, negsuc}
use baidu_disk_link.Common.Slices.{slice, take-append-take_drop}
use baidu_disk_link.ChunkStore.Types.{Bytes}
use baidu_disk_link.Remote.Errors.{Outcome, ok}
use baidu_disk_link.Remote.Reader.Exact.{Outcome-cases}
use baidu_disk_link.Baidu.Network.{Network, list_files, do_json}
use baidu_disk_link.Baidu.Account.{Account, FileMeta}
use baidu_disk_link.Baidu.Listing.{
  RemoteEntry, ListResponse, meta_to_remote, next_mark, ask_page, list_pages, check_listed,
  is_listed,
}

next_mark-increases :
    (mark : ℕ) (response : ListResponse) (next : ℕ)
    → next_mark mark response ≡ some next
    → mark < next
unfolding next_mark
next_mark-increases mark response next e = ground (arith, e)

module _ {W : Type 0} (network : Network W) (decode : Bytes → Outcome ListResponse)
    (directory : Bytes) where
  -- `List` always returns: as the marks of the pages go up, no more pages are asked for than there are marks up to the greatest
  -- one that the network gives, and any marks have a greatest one, since they are 64-bit numbers.
  pub list_pages-ends :
      (limit rounds mark : ℕ) (out : List RemoteEntry) (a : Account) (w : W)
      → ((w : W) (mark : ℕ) (response : ListResponse) (next : ℕ)
          → (ask_page network decode directory mark a w).1 ≡ ok response
          → next_mark mark response ≡ some next
          → next ≤ limit)
      → mark ≤ limit
      → limit < rounds + mark
      → list_pages network decode directory rounds mark out a w ≢ none
  unfolding list_pages
  list_pages-ends limit zero mark out a w bound h r e = absurd (omega (arith, h, r))
  list_pages-ends limit (suc more) mark out a w bound h r e =
      let page = ask_page network decode directory mark a w in
      elim (Outcome-cases page.1) [
        | inr (failure, bad) ↦ absurd (ground (arith, e, bad))
        | inl (response, good) ↦ elim (Option-cases (next_mark mark response)) [
          | inl last ↦ absurd (ground (arith, e, good, last))
          | inr (next, found) ↦
              list_pages-ends limit more next (out ++ map meta_to_remote response.entries) a page.0
                bound (bound w mark response next good found)
                (omega (arith, r, next_mark-increases mark response next found))
                (ground (arith, e, good, found))
        ]
      ]

-- A page of a listing: the entries from the mark on, the mark behind them, and whether there are more.
pub record IsPage (all : List FileMeta) (mark : ℕ) (response : ListResponse) : Type 0 where
  pub entries : response.entries ≡ slice mark (length response.entries) all
  pub next : response.next ≡ pos (mark + length response.entries)
  pub more : response.has_more ≡ true → (response.entries ≢ [])
  pub last : response.has_more ≡ false → drop (mark + length response.entries) all ≡ []

is_listed-code : (code : ℤ) → is_listed code ≡ true → (code ≡ pos 0) ⊎ (code ≡ pos 109)
is_listed-code (negsuc n) h = absurd (cc)
is_listed-code (pos n) h =
    let small : (n ≡ 0) ⊎ (n ≡ 109) = ground (arith, h) in
    elim small [ inl zero_ ↦ inl (ap pos zero_) | inr other ↦ inr (ap pos other) ]

-- an answer that passes is the one that came, and has one of the two codes
check_listed-ok :
    (found response : ListResponse)
    → check_listed found ≡ ok response
    → (found ≡ response) × ((response.error_code ≡ pos 0) ⊎ (response.error_code ≡ pos 109))
unfolding check_listed
check_listed-ok found response e = elim (Bool-cases (is_listed found.error_code)) [
  | inr refused ↦ absurd (ground (arith, e, refused))
  | inl listed ↦
      let same : found ≡ response = ground (arith, e, listed) in
      (
        same,
        subst (λ x. (x.error_code ≡ pos 0) ⊎ (x.error_code ≡ pos 109)) same
            (is_listed-code found.error_code listed),
      )
]

map-append :
    (f : FileMeta → RemoteEntry) (xs ys : List FileMeta) → map f (xs ++ ys) ≡ map f xs ++ map f ys
map-append f [] ys = refl
map-append f (x ∷ xs) ys = ap (◌∷◌ (f x)) (map-append f xs ys)

take-whole : (n : ℕ) (xs : List FileMeta) → drop n xs ≡ [] → take n xs ≡ xs
take-whole zero xs h = sym h
take-whole (suc n) [] h = refl
take-whole (suc n) (x ∷ xs) h = ap (◌∷◌ x) (take-whole n xs h)

-- what is listed once a page is added
listed-step :
    (all entries : List FileMeta) (mark : ℕ) (out : List RemoteEntry)
    → out ≡ map meta_to_remote (take mark all)
    → entries ≡ slice mark (length entries) all
    → out ++ map meta_to_remote entries ≡ map meta_to_remote (take (mark + length entries) all)
listed-step all entries mark out o e =
    ap (λ x. x ++ map meta_to_remote entries) o
    ∙ sym (map-append meta_to_remote (take mark all) entries)
    ∙ ap (map meta_to_remote)
        (ap (λ x. take mark all ++ x) e ∙ take-append-take_drop mark (length entries) all)

last-page :
    (all : List FileMeta) (mark : ℕ) (response : ListResponse)
    → IsPage all mark response
    → next_mark mark response ≡ none
    → drop (mark + length response.entries) all ≡ []
unfolding next_mark
last-page all mark response p e = elim (Bool-cases response.has_more) [
  | inr over ↦ p.last over
  | inl more ↦ absurd (ground (arith, e, more, p.next, p.more more))
]

next-page :
    (all : List FileMeta) (mark : ℕ) (response : ListResponse) (next : ℕ)
    → IsPage all mark response
    → next_mark mark response ≡ some next
    → next ≡ mark + length response.entries
unfolding next_mark
next-page all mark response next p e = ground (arith, e, p.next)

module _ {W : Type 0} (network : Network W) (decode : Bytes → Outcome ListResponse)
    (directory : Bytes) (all : List FileMeta)
    (first : (w : W) (token : Bytes) (response : ListResponse)
      → do_json decode (network.send w (list_files token directory none)).1 ≡ ok response
      → (response.error_code ≡ pos 0) ⊎ (response.error_code ≡ pos 109)
      → IsPage all 0 response)
    (later : (w : W) (token : Bytes) (mark : ℕ) (response : ListResponse)
      → do_json decode (network.send w (list_files token directory (some mark))).1 ≡ ok response
      → (response.error_code ≡ pos 0) ⊎ (response.error_code ≡ pos 109)
      → IsPage all mark response) where
  -- the page that `List` gets for a mark is that from the mark on
  pages :
      (w : W) (mark : ℕ) (a : Account) (response : ListResponse)
      → (ask_page network decode directory mark a w).1 ≡ ok response
      → IsPage all mark response
  unfolding ask_page
  pages w zero a response e =
      let got = do_json decode (network.send w (list_files a.access_token directory none)).1 in
      elim (Outcome-cases got) [
        | inr (failure, bad) ↦ absurd (ground (arith, e, bad))
        | inl (found, good) ↦
            let ok_code = check_listed-ok found response (ground (arith, e, good)) in
            first w a.access_token response (good ∙ ap ok ok_code.0) ok_code.1
      ]
  pages w (suc n) a response e =
      let got =
        do_json decode (network.send w (list_files a.access_token directory (some (suc n)))).1 in
      elim (Outcome-cases got) [
        | inr (failure, bad) ↦ absurd (ground (arith, e, bad))
        | inl (found, good) ↦
            let ok_code = check_listed-ok found response (ground (arith, e, good)) in
            later w a.access_token (suc n) response (good ∙ ap ok ok_code.0) ok_code.1
      ]

  listed-whole :
      (rounds mark : ℕ) (out entries : List RemoteEntry) (a : Account) (w after : W)
      → out ≡ map meta_to_remote (take mark all)
      → list_pages network decode directory rounds mark out a w ≡ some (after, ok entries)
      → entries ≡ map meta_to_remote all
  unfolding list_pages
  listed-whole zero mark out entries a w after o e = absurd (cc)
  listed-whole (suc more) mark out entries a w after o e =
      let page = ask_page network decode directory mark a w in
      elim (Outcome-cases page.1) [
        | inr (failure, bad) ↦ absurd (ground (arith, e, bad))
        | inl (response, good) ↦
            let p = pages w mark a response good in
            let step = listed-step all response.entries mark out o p.entries in
            elim (Option-cases (next_mark mark response)) [
              | inl last ↦
                  let same : out ++ map meta_to_remote response.entries ≡ entries =
                    ground (arith, e, good, last) in
                  sym same
                  ∙ step
                  ∙ ap (map meta_to_remote) (
                      take-whole (mark + length response.entries) all
                        (last-page all mark response p last))
              | inr (next, found) ↦
                  let reached = next-page all mark response next p found in
                  listed-whole more next (out ++ map meta_to_remote response.entries) entries a
                    page.0 after (step ∙ ap (λ n. map meta_to_remote (take n all)) (sym reached))
                    (ground (arith, e, good, found))
            ]
      ]

  -- `List` gives the whole listing, in order and each entry once, or an error: when every answer of the network without an error
  -- code, or with the code 109, holds the entries from the start that the request names, or from the first where it names
  -- none, in any number, names the mark behind them and tells whether there are more, then a listing without an error is
  -- the directory's.
  pub list_pages-whole :
      (rounds : ℕ) (entries : List RemoteEntry) (a : Account) (w after : W)
      → list_pages network decode directory rounds 0 [] a w ≡ some (after, ok entries)
      → entries ≡ map meta_to_remote all
  list_pages-whole rounds entries a w after e = listed-whole rounds 0 [] entries a w after refl e
