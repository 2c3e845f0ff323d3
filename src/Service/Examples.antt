-- ===== src/Service/Examples.antt =====
-- The services of app/service on small inputs.
use idena_indexer_api.Prelude.{ℕ, ◌≡◌, refl, true, Option, none, [], arith}
use idena_indexer_api.Prelude.Text.{Text, codes}
use idena_indexer_api.Prelude.Page.{Page}
use idena_indexer_api.Prelude.Result.{Result, ok, err}
use idena_indexer_api.GoCache.{GoCache}
use idena_indexer_api.GoCache.Assoc.{assoc_cache}
use idena_indexer_api.Service.NetworkSize.{
  new_loader, load, load-after_load, after_load, name, expiration,
}
use idena_indexer_api.Service.Contracts.{Chain, MemPoolContract, OracleVotingContract, Transaction}

abbrev sizes : GoCache (Result ℕ ℕ)
sizes = assoc_cache (Result ℕ ℕ)

abbrev loader : sizes.Store
loader = new_loader sizes

-- After an error that was loaded at 2 a call at 30 loads anew.
load-after_load_example : load sizes (after_load sizes loader 1 2 (err 7)) 30 30 31 (ok 901) ≡ (
  ok 901,
  true,
  sizes.set (after_load sizes loader 1 2 (err 7)) 31 name (ok 901) (expiration sizes (ok 901)),
)
unfolding assoc_cache new_loader
load-after_load_example =
    load-after_load sizes loader 1 2 30 30 31 (err 7) (ok 901) refl refl (omega arith)

abbrev chain : Chain
chain = record {
  Amount = ℕ;
  Decimal = ℕ;
  Address = Text;
  Time = ℕ;
  Bytes = Text;
  convert_to_float = λ n. n;
  hex = λ a. a;
  timestamp_to_time = λ n. n;
}

abbrev contract : MemPoolContract chain
contract = record {
  contract_address = codes "0xc";
  start_time = 100;
  voting_duration = 4320;
  voting_min_payment = none;
  fact = [];
  public_voting_duration = 4320;
  winner_threshold = 51;
  quorum = 20;
  committee_size = 100;
  owner_deposit = none;
  oracle_reward_fund = none;
  refund_recipient = none;
  hash = [];
}

-- A database that has nothing.
abbrev no_contracts : ℕ → Option Text → Page ℕ (OracleVotingContract chain)
no_contracts left token = record { items = []; next = none; err = none }

abbrev transaction : Transaction chain
transaction = record {
  hash = codes "0x1";
  type = 16;
  from = codes "0xa";
  to = codes "0xc";
  amount = 1;
  tips = 0;
  max_fee = 2;
}
