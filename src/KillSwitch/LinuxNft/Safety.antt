-- ===== src/KillSwitch/LinuxNft/Safety.antt =====
-- src/killswitch/linux/LinuxNftKillSwitchManager.cpp under KillSwitchManager.cpp: what the marker file
-- and the status say of the table of nft.
use zarya.Prelude.{◌≡◌, ◌≢◌, Bool, true, false, some, Text}
use zarya.KillSwitch.LinuxNft.{exited, timed_out, Nft, run_nft, says_absent}

-- What is documented of nft: a file is loaded as one transaction, so that the exit code 0 says that
-- the table is there and another that all is as it was; a deletion with the exit code 0 leaves no
-- table, and none that is not there is made by it; and it says that there is no such table only
-- where there is none. That a load ends in time is asked for besides.
pub record IsNft (nft : Nft) : Type 0 where
  pub loads :
      (text : Text) (on : Bool) (output error : Text)
      → (nft.load text on).1 ≡ exited true output error
      → (nft.load text on).0 ≡ true
  pub is_atomic :
      (text : Text) (on : Bool) (output error : Text)
      → (nft.load text on).1 ≡ exited false output error
      → (nft.load text on).0 ≡ on
  pub in_time : (text : Text) (on : Bool) → (nft.load text on).1 ≢ timed_out
  pub deletes :
      (on : Bool) (output error : Text)
      → (nft.delete on).1 ≡ exited true output error
      → (nft.delete on).0 ≡ false
  pub adds_no_table : (on : Bool) → (nft.delete on).0 ≡ true → on ≡ true
  pub is_truthful :
      (on : Bool) (text : Text)
      → run_nft (nft.delete on).1 ≡ some text
      → says_absent text ≡ true
      → (nft.delete on).0 ≡ false
