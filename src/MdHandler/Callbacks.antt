-- ===== src/MdHandler/Callbacks.antt =====
-- The callbacks of the market data API (Server/CTPMdHandler.cpp) that reach the alert engine.
use cloud_alert_system.AlertEngine.{check_price_alert}
use cloud_alert_system.Common.{Option, none, some, if◌then◌else◌, ℤ, pos, eq_ℤ}
use cloud_alert_system.Db.Queries.{get_pending_contracts}
use cloud_alert_system.Double.{Float}
use cloud_alert_system.MdHandler.{subscribe}
use cloud_alert_system.System.{System}
use cloud_alert_system.Text.{Bytes, c_str}
use cloud_alert_system.World.{World}

-- The ErrorID of the answer, if there is one. After a login the contracts of all pending alerts are
-- subscribed.
unfoldable pub on_rsp_user_login : {D : Type 0} → World D → Option ℤ → System D → System D
on_rsp_user_login W none s = record s { md = subscribe (get_pending_contracts W.sqlite s.db) s.md }
on_rsp_user_login W (some error_id) s =
    if eq_ℤ error_id (pos 0)
    then record s { md = subscribe (get_pending_contracts W.sqlite s.db) s.md }
    else s

-- InstrumentID and LastPrice of a tick, or `none` for a null pointer
unfoldable pub on_rtn_depth_market_data :
    {D : Type 0} → Float D → World D → Option (Bytes × D) → System D → Option (System D)
on_rtn_depth_market_data F W none s = some s
on_rtn_depth_market_data F W (some (contract, last_price)) s =
    check_price_alert F W (c_str contract) last_price s
