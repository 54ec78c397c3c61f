-- ===== src/Stores/Reply.antt =====
-- What a request of frontend/lib/api-client gives to a store: a body with its status and optional
-- data, or a rejection.
use emailjachai.Common.{Bool, Option, String}

pub data Reply (A : Type 0) : Type 0 where
  replied : (success : Bool) (body : Option A) (message : String) → Reply A
  rejected : Reply A
