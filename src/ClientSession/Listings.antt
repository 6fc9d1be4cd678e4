-- ===== src/ClientSession/Listings.antt =====
-- The answers of HandleQuery and HandleGetPrices of Server/ClientSession.cpp have no OK line.
use cloud_alert_system.Common.{
  ℕ, ◌≡◌, refl, inl, inr, Bool, true, false, ◌&&◌, not, Option, none, some, List, [], ◌∷◌, arith,
  Bool-cases, Option-cases,
}
use cloud_alert_system.Text.{Bytes, is_empty, c_str, format_into}
use cloud_alert_system.Double.{Float}
use cloud_alert_system.Db.{AlertRecord}
use cloud_alert_system.Db.Queries.{query_alerts}
use cloud_alert_system.World.{World}
use cloud_alert_system.System.{System}
use cloud_alert_system.AlertEngine.{◌>>=◌, get_last_price, subscribe_contract}
use cloud_alert_system.Text.Number.{atoi}
use cloud_alert_system.ClientSession.Lines.{Response, ok, ok_id, ok_email, alert, price, formatted}
use cloud_alert_system.ClientSession.{
  Session, Turn, logged_in, alert_lines, handle_query, price_lines, handle_get_prices,
}

module _ {D : Type 0} where
  unfoldable pub says_ok : Response D → Bool
  says_ok ok = true
  says_ok (ok_id n) = true
  says_ok (ok_email email) = true
  says_ok _ = false

  unfoldable pub listing : List (Response D) → Bool
  unfolding says_ok
  listing [] = true
  listing (r ∷ rest) = not (says_ok r) && listing rest

module _ {D : Type 0} (F : Float D) (W : World D) where
  abbrev pub IsListing : Option (Turn D) → Type 0
  IsListing none = Unit
  IsListing (some t) = listing t.lines ≡ true

  formatted-listed :
      (size : ℕ) (r line : Response D)
      → formatted F size r ≡ some line
      → says_ok r ≡ false
      → says_ok line ≡ false
  unfolding formatted format_into
  formatted-listed size r line e h = ground arith

  abbrev Listed : Option (List (Response D)) → Type 0
  Listed none = Unit
  Listed (some lines) = listing lines ≡ true

  Listed-cons :
      (line : Response D) (rest : Option (List (Response D)))
      → says_ok line ≡ false
      → Listed rest
      → Listed (rest >>= λ lines. some (line ∷ lines))
  unfolding listing
  Listed-cons line none e h = tt
  Listed-cons line (some lines) e h = ground arith

  alert_lines-Listed : (records : List (AlertRecord D)) → Listed (alert_lines F W records)
  unfolding alert_lines
  alert_lines-Listed [] = unfold listing says_ok in refl
  alert_lines-Listed (r ∷ records) = elim (Option-cases (formatted F 512 (alert r))) [
    | inl e ↦ rw e tt
    | inr (line, e) ↦ rw e (
        Listed-cons line (alert_lines F W records)
          (formatted-listed 512 (alert r) line e (unfold says_ok in refl))
          (alert_lines-Listed records))
  ]

  abbrev Priced : Option (System D × List (Response D)) → Type 0
  Priced none = Unit
  Priced (some (t, lines)) = listing lines ≡ true

  Priced-cons :
      (line : Response D) (rest : Option (System D × List (Response D)))
      → says_ok line ≡ false
      → Priced rest
      → Priced (rest >>= λ (t, lines). some (t, line ∷ lines))
  unfolding listing
  Priced-cons line none e h = tt
  Priced-cons line (some (t, lines)) e h = ground arith

  price_lines-Priced :
      (contracts : List Bytes) (s : System D) → Priced (price_lines F W contracts s)
  unfolding price_lines
  price_lines-Priced [] s = unfold listing says_ok in refl
  price_lines-Priced (contract ∷ contracts) s =
      let t = subscribe_contract contract s in
      let r = price contract (get_last_price contract t) in
      elim (Bool-cases (is_empty contract)) [
        | inl e ↦ rw e (price_lines-Priced contracts s)
        | inr e ↦ rw e (elim (Option-cases (formatted F 256 r)) [
          | inl f ↦ rw f tt
          | inr (line, f) ↦ rw f (
              Priced-cons line (price_lines F W contracts t)
                (formatted-listed 256 r line f (unfold says_ok in refl))
                (price_lines-Priced contracts t))
        ])
      ]

  pub query-IsListing :
      (c : Session) (s : System D) (tokens : List Bytes)
      → IsListing (logged_in F W (handle_query F W) c s tokens)
  unfolding handle_query listing says_ok
  query-IsListing c s (a ∷ u ∷ st ∷ rest) =
      ground (arith, alert_lines-Listed (query_alerts W.sqlite c.user_id (atoi (c_str st)) s.db))
  query-IsListing c s _ = ground arith

  pub get_prices-IsListing :
      (c : Session) (s : System D) (tokens : List Bytes)
      → IsListing (logged_in F W (handle_get_prices F W) c s tokens)
  unfolding handle_get_prices listing says_ok
  get_prices-IsListing c s (a ∷ contract ∷ contracts) =
      ground (arith, price_lines-Priced (contract ∷ contracts) s)
  get_prices-IsListing c s _ = ground arith
