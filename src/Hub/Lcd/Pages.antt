-- ===== src/Hub/Lcd/Pages.antt =====
-- What the pages of the hub hold together: query.go.
use shinzo_host_client.Prelude.{
  ℕ, zero, suc, ◌<◌, ◌≡◌, ◌≢◌, ◌∙◌, refl, ap, sym, String, false, Option, none, some, List, [], ◌∷◌,
  ◌++◌, ◌==◌, string_eq, length, arith, ==_iff,
}
use mathlib.Core.List.{append-nil, append_assoc}
use shinzo_host_client.Prelude.Results.{ok, err}
use shinzo_host_client.Views.{View}
use shinzo_host_client.Hub.Lcd.{
  LcdError, LcdView, Page, Lcd, body_of, decode_lcd_view, kept_of, decode_lcd_views, next_pages,
  fetch_pages, fetch_all_registered_views,
}

-- The views of the hub on some pages, in their order.
abbrev pub lcd_views : List Page → List LcdView
lcd_views [] = []
lcd_views (page ∷ pages) = page.views ++ lcd_views pages

module _ {Database : Type 0} (lcd : Lcd Database) where
  open lcd use {lcd_url, get_page}

  -- The pages from a key on, each named by the one before it, and how they end: with a page that
  -- names no other, or with an error.
  pub data Chain : String → List Page → Option LcdError → Type 0 where
    last :
        {key : String} {page : Page}
        → body_of (get_page key) ≡ ok page
        → page.next_key ≡ ""
        → Chain key (page ∷ []) none
    failed : {key : String} {e : LcdError} → body_of (get_page key) ≡ err e → Chain key [] (some e)
    more :
        {key : String} {page : Page} {pages : List Page} {e : Option LcdError}
        → body_of (get_page key) ≡ ok page
        → page.next_key ≢ ""
        → Chain page.next_key pages e
        → Chain key (page ∷ pages) e

  kept_of-append :
      (v : Option View) (views xs ys : List View)
      → views ≡ xs ++ ys
      → kept_of lcd v views ≡ kept_of lcd v xs ++ ys
  unfolding kept_of
  kept_of-append none views xs ys h = h
  kept_of-append (some v) views xs ys h = ap (◌∷◌ v) h

  decode_lcd_views-append :
      (lvs lvs' : List LcdView)
      → decode_lcd_views lcd (lvs ++ lvs') ≡ decode_lcd_views lcd lvs ++ decode_lcd_views lcd lvs'
  unfolding decode_lcd_views
  decode_lcd_views-append [] lvs' = refl
  decode_lcd_views-append (lv ∷ lvs) lvs' =
      kept_of-append (decode_lcd_view lcd lv) _ _ _ (decode_lcd_views-append lvs lvs')

  fetch_pages-Chain :
      {key : String} {pages : List Page} {e : Option LcdError}
      → Chain key pages e
      → (rounds : ℕ) (views : List View) → length pages < rounds
      → fetch_pages lcd rounds key views ≡ some (views ++ decode_lcd_views lcd (lcd_views pages), e)
  unfolding fetch_pages next_pages decode_lcd_views
  fetch_pages-Chain chain zero views h = absurd (omega (arith, h))
  fetch_pages-Chain (failed f) (suc rounds) views h =
      rw f (ap (λ vs. some (vs, some _)) (sym (append-nil views)))
  fetch_pages-Chain (last {page = page} f ends) (suc rounds) views h = rw f (
      rw ends
        (ap (λ vs. some (views ++ decode_lcd_views lcd vs, none)) (sym (append-nil page.views))))
  fetch_pages-Chain (more {page = page} {pages = pages} {e = e} f goes chain) (suc rounds) views h =
      rw f (
        rw (goes_on page.next_key goes) (
          fetch_pages-Chain chain rounds (views ++ decode_lcd_views lcd page.views)
            (omega (arith, h))
          ∙ ap (λ vs. some (vs, e))
              (append_assoc views (decode_lcd_views lcd page.views)
                  (decode_lcd_views lcd (lcd_views pages))
                ∙ ap (λ vs. views ++ vs)
                    (sym (decode_lcd_views-append page.views (lcd_views pages))))))
    where
      goes_on : (key : String) → key ≢ "" → (key == "") ≡ false
      goes_on key differs = ground (arith, differs, ==_iff key "")

  -- With a gateway that is configured and serves pages that come to an end, the views of all pages are
  -- returned, in their order, less those without data or with data that is no valid view; and the
  -- error of the page that ended them, if one did. As many rounds as there are pages, and one more, do.
  pub fetch_all_registered_views-Chain :
      (pages : List Page) (e : Option LcdError) (rounds : ℕ)
      → lcd_url ≢ ""
      → Chain "" pages e
      → length pages < rounds
      → fetch_all_registered_views lcd rounds ≡ some (decode_lcd_views lcd (lcd_views pages), e)
  unfolding fetch_all_registered_views
  fetch_all_registered_views-Chain pages e rounds url chain h =
      rw (configured lcd_url url) (fetch_pages-Chain chain rounds [] h)
    where
      configured : (s : String) → s ≢ "" → (s == "") ≡ false
      configured s differs = ground (arith, differs, ==_iff s "")
