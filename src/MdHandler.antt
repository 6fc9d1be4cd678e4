-- ===== src/MdHandler.antt =====
-- CTPMdHandler of Server/CTPMdHandler.h and Server/CTPMdHandler.cpp: the requests that it makes of the
-- market data API, which is not part of the program.
pub mod Callbacks
use cloud_alert_system.Common.{
  zero, suc, ◌+◌, Bool, true, false, Option, none, some, List, [], ◌∷◌, ◌++◌, map, arith,
  if◌then◌else◌, ℤ, pos, negsuc, to_int,
}
use cloud_alert_system.Text.{Bytes, c_str}

-- calls of the API, with the texts that it is given
pub data Request : Type 0 where
  register_front : Bytes → Request
  login : ℤ → Request
  subscribe_market_data unsubscribe_market_data : List Bytes → Request

pub record MdHandler : Type 0 where
  -- m_pApi is not null
  pub api : Bool
  pub request_id : ℤ
  -- the latest last
  pub requests : List Request

unfoldable pub subscribe : List Bytes → MdHandler → MdHandler
subscribe [] h = h
subscribe (c ∷ cs) h =
    if h.api
    then record h { requests = h.requests ++ subscribe_market_data (map c_str (c ∷ cs)) ∷ [] }
    else h

unfoldable pub unsubscribe : List Bytes → MdHandler → MdHandler
unsubscribe [] h = h
unsubscribe (c ∷ cs) h =
    if h.api
    then record h { requests = h.requests ++ unsubscribe_market_data (map c_str (c ∷ cs)) ∷ [] }
    else h

-- ++x on an `int`, with wrap-around
abbrev pub next_int : ℤ → ℤ
next_int (pos n) = to_int (pos (suc n))
next_int (negsuc zero) = pos 0
next_int (negsuc (suc n)) = negsuc n

-- Connect: `stubs` where the bundled headers have a price type smaller than a double, `created` where
-- CreateFtdcMdApi returns an object.
unfoldable pub connect : Bool → Bool → Bytes → MdHandler → MdHandler × Bool
connect stubs created front h =
    if stubs
    then (h, false)
    else if created
    then (record h { api = true; requests = h.requests ++ register_front front ∷ [] }, true)
    else (record h { api = false }, false)

unfoldable pub on_front_connected : MdHandler → MdHandler
on_front_connected h =
    let id = next_int h.request_id in
    record h { request_id = id; requests = h.requests ++ login id ∷ [] }
