-- ===== src/Panel/Masked.antt =====
-- No page of the panel leaks a token or a code.
use tokenzy.Prelude.Str.{Str}
use tokenzy.Db.{Database}
use tokenzy.Panel.{Request}
use tokenzy.Panel.Shows.{Shows}
use tokenzy.Panel.Tokens as Tokens
use tokenzy.Panel.Tokens.Actions as TokenPages
use tokenzy.Panel.Tokens.Masked as TokenMask
use tokenzy.Panel.Tokens.Masked.{panel-IsMasked}
use tokenzy.Panel.Otps as Otps
use tokenzy.Panel.Otps.Actions as OtpPages
use tokenzy.Panel.Otps.Masked as OtpMask
use tokenzy.Panel.Otps.Masked.{otps-IsMasked}

-- Outside of the answers that issue or reveal one, the panel sends neither a token nor a code: every
-- row of a listing, of a page behind it, of an opened or closed row, of the row behind a revocation
-- and of the listing behind a deletion has an empty plaintext, in the row and in its detail, and no
-- panel has a new token or code in it.
pub pages-IsMasked :
    (site : Tokens.Site) (codes : Otps.Site) (r : Request) (status cursor : Str)
    (filter : Otps.OtpFilterState) (d : Database)
    → (Shows TokenMask.IsClean (TokenPages.tokens_page site r status d)
        × Shows TokenMask.IsClean (TokenPages.token_rows site r status cursor d)
        × Shows TokenMask.IsMasked (TokenPages.token_detail site r status d)
        × Shows TokenMask.IsMasked (TokenPages.token_row site r status d)
        × Shows TokenMask.IsMasked (TokenPages.revoke_token site r status d).0
        × Shows TokenMask.IsClean (TokenPages.delete_token site r status d).0)
      × (Shows OtpMask.IsClean (OtpPages.otps_page codes r filter d)
          × Shows OtpMask.IsClean (OtpPages.otp_rows codes r filter cursor d)
          × Shows OtpMask.IsMasked (OtpPages.otp_detail codes r filter d)
          × Shows OtpMask.IsMasked (OtpPages.otp_row codes r filter d)
          × Shows OtpMask.IsMasked (OtpPages.revoke_otp codes r filter d).0
          × Shows OtpMask.IsClean (OtpPages.delete_otp codes r filter d).0)
pages-IsMasked site codes r status cursor filter d =
    (panel-IsMasked site r status cursor d, otps-IsMasked codes r filter cursor d)
