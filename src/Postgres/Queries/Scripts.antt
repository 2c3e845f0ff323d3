-- ===== src/Postgres/Queries/Scripts.antt =====
-- The files of resources/scripts/api, that readQueries of app/db/postgres/postgres_init.go reads, each
-- with the number of the parameters of its text.
use idena_indexer_api.Prelude.{ℕ, List, [], ◌∷◌}
use idena_indexer_api.Prelude.Text.{Text, codes}

abbrev pub scripts : List (Text × ℕ)
scripts =
    (codes "activeAddressesCount.sql", 1)
    ∷ (codes "address.sql", 1)
    ∷ (codes "addressBadAuthors.sql", 3)
    ∷ (codes "addressBadAuthorsCount.sql", 1)
    ∷ (codes "addressBalanceUpdates.sql", 3)
    ∷ (codes "addressBalanceUpdatesCount.sql", 1)
    ∷ (codes "addressBalanceUpdatesSummary.sql", 1)
    ∷ (codes "addressContractTxBalanceUpdates.sql", 4)
    ∷ (codes "addressDelegateeTotalRewards.sql", 3)
    ∷ (codes "addressDelegations.sql", 3)
    ∷ (codes "addressMiningRewardSummaries.sql", 3)
    ∷ (codes "addressOracleVotingContracts.sql", 3)
    ∷ (codes "addressPenalties.sql", 3)
    ∷ (codes "addressPenaltiesCount.sql", 1)
    ∷ (codes "addressStates.sql", 3)
    ∷ (codes "addressStatesCount.sql", 1)
    ∷ (codes "addressToken.sql", 2)
    ∷ (codes "addressTokens.sql", 3)
    ∷ (codes "addressTotalLatestBurntCoins.sql", 2)
    ∷ (codes "addressTotalLatestMiningReward.sql", 2)
    ∷ (codes "balances.sql", 3)
    ∷ (codes "balancesCount.sql", 0)
    ∷ (codes "blockByHash.sql", 1)
    ∷ (codes "blockByHeight.sql", 1)
    ∷ (codes "blockCoinsByHash.sql", 1)
    ∷ (codes "blockCoinsByHeight.sql", 1)
    ∷ (codes "blockTxsByHash.sql", 3)
    ∷ (codes "blockTxsByHeight.sql", 3)
    ∷ (codes "blockTxsCountByHash.sql", 1)
    ∷ (codes "blockTxsCountByHeight.sql", 1)
    ∷ (codes "circulatingSupply.sql", 1)
    ∷ (codes "coinsQuery.sql", 0)
    ∷ (codes "coinsTotal.sql", 0)
    ∷ (codes "contract.sql", 1)
    ∷ (codes "contractTxBalanceUpdates.sql", 3)
    ∷ (codes "contractVerifiedCodeFile.sql", 1)
    ∷ (codes "epoch.sql", 1)
    ∷ (codes "epochAddressDelegateeTotalRewards.sql", 2)
    ∷ (codes "epochBadAuthors.sql", 3)
    ∷ (codes "epochBadAuthorsCount.sql", 1)
    ∷ (codes "epochBlocks.sql", 3)
    ∷ (codes "epochBlocksCount.sql", 1)
    ∷ (codes "epochCoins.sql", 1)
    ∷ (codes "epochDelegateeRewards.sql", 5)
    ∷ (codes "epochDelegateeTotalRewards.sql", 4)
    ∷ (codes "epochFlipQualifiedAnswers.sql", 1)
    ∷ (codes "epochFlipQualifiedWrongWords.sql", 1)
    ∷ (codes "epochFlipStates.sql", 1)
    ∷ (codes "epochFlips.sql", 3)
    ∷ (codes "epochFlipsCount.sql", 1)
    ∷ (codes "epochFundPayments.sql", 1)
    ∷ (codes "epochIdentities.sql", 5)
    ∷ (codes "epochIdentitiesCount.sql", 3)
    ∷ (codes "epochIdentitiesRewards.sql", 3)
    ∷ (codes "epochIdentitiesRewardsCount.sql", 1)
    ∷ (codes "epochIdentity.sql", 2)
    ∷ (codes "epochIdentityAnswers.sql", 3)
    ∷ (codes "epochIdentityAvailableInvites.sql", 2)
    ∷ (codes "epochIdentityBadAuthor.sql", 2)
    ∷ (codes "epochIdentityFlips.sql", 2)
    ∷ (codes "epochIdentityFlipsToSolve.sql", 3)
    ∷ (codes "epochIdentityReportedFlipRewards.sql", 2)
    ∷ (codes "epochIdentityRewardedFlips.sql", 2)
    ∷ (codes "epochIdentityRewardedInvitee.sql", 2)
    ∷ (codes "epochIdentityRewardedInvites.sql", 2)
    ∷ (codes "epochIdentityRewards.sql", 2)
    ∷ (codes "epochIdentitySavedInviteRewards.sql", 2)
    ∷ (codes "epochIdentityStatesInterimSummary.sql", 1)
    ∷ (codes "epochIdentityStatesSummary.sql", 1)
    ∷ (codes "epochIdentityValidationSummary.sql", 2)
    ∷ (codes "epochInviteStatesSummary.sql", 1)
    ∷ (codes "epochInvites.sql", 3)
    ∷ (codes "epochInvitesCount.sql", 1)
    ∷ (codes "epochInvitesSummary.sql", 1)
    ∷ (codes "epochRewardBounds.sql", 1)
    ∷ (codes "epochRewardsCount.sql", 1)
    ∷ (codes "epochRewardsSummary.sql", 1)
    ∷ (codes "epochTxs.sql", 3)
    ∷ (codes "epochTxsCount.sql", 1)
    ∷ (codes "epochs.sql", 2)
    ∷ (codes "epochsCount.sql", 0)
    ∷ (codes "flip.sql", 1)
    ∷ (codes "flipAnswers.sql", 2)
    ∷ (codes "flipEpochAdjacentFlips.sql", 1)
    ∷ (codes "flipPicOrders.sql", 1)
    ∷ (codes "flipPics.sql", 1)
    ∷ (codes "identity.sql", 1)
    ∷ (codes "identityAge.sql", 1)
    ∷ (codes "identityAnswerPoints.sql", 1)
    ∷ (codes "identityCurrentFlips.sql", 1)
    ∷ (codes "identityEpochRewards.sql", 3)
    ∷ (codes "identityEpochRewardsCount.sql", 1)
    ∷ (codes "identityEpochs.sql", 3)
    ∷ (codes "identityEpochsCount.sql", 1)
    ∷ (codes "identityFlipRightAnswers.sql", 1)
    ∷ (codes "identityFlipStates.sql", 1)
    ∷ (codes "identityFlips.sql", 3)
    ∷ (codes "identityFlipsCount.sql", 1)
    ∷ (codes "identityInvites.sql", 3)
    ∷ (codes "identityInvitesCount.sql", 1)
    ∷ (codes "identityRewards.sql", 3)
    ∷ (codes "identityRewardsCount.sql", 1)
    ∷ (codes "identityTxs.sql", 3)
    ∷ (codes "identityTxsCount.sql", 1)
    ∷ (codes "isAddress.sql", 1)
    ∷ (codes "isBlockHash.sql", 1)
    ∷ (codes "isBlockHeight.sql", 1)
    ∷ (codes "isEpoch.sql", 1)
    ∷ (codes "isFlip.sql", 1)
    ∷ (codes "isTx.sql", 1)
    ∷ (codes "lastBlock.sql", 0)
    ∷ (codes "lastBlockFeeRate.sql", 0)
    ∷ (codes "lastEpoch.sql", 0)
    ∷ (codes "minersHistory.sql", 0)
    ∷ (codes "multisigContract.sql", 1)
    ∷ (codes "oracleLockContract.sql", 1)
    ∷ (codes "oracleVotingContract.sql", 2)
    ∷ (codes "oracleVotingContractsAll.sql", 9)
    ∷ (codes "oracleVotingContractsAllOpen.sql", 11)
    ∷ (codes "oracleVotingContractsByOracle.sql", 11)
    ∷ (codes "ovcAllOpenSortedByDt.sql", 11)
    ∷ (codes "ovcAllSortedByDt.sql", 9)
    ∷ (codes "ovcByOracleSortedByDt.sql", 11)
    ∷ (codes "peersHistory.sql", 1)
    ∷ (codes "pool.sql", 1)
    ∷ (codes "poolDelegators.sql", 4)
    ∷ (codes "poolDelegatorsCount.sql", 1)
    ∷ (codes "poolSizeHistory.sql", 3)
    ∷ (codes "pools.sql", 3)
    ∷ (codes "poolsCount.sql", 0)
    ∷ (codes "refundableOracleLockContract.sql", 1)
    ∷ (codes "stakes.sql", 3)
    ∷ (codes "timeLockContract.sql", 1)
    ∷ (codes "token.sql", 1)
    ∷ (codes "tokenHolders.sql", 4)
    ∷ (codes "totalLatestBurntCoins.sql", 3)
    ∷ (codes "totalLatestBurntCoinsCount.sql", 1)
    ∷ (codes "totalLatestMiningRewards.sql", 3)
    ∷ (codes "totalLatestMiningRewardsCount.sql", 1)
    ∷ (codes "transaction.sql", 1)
    ∷ (codes "transactionEvents.sql", 3)
    ∷ (codes "transactionRaw.sql", 1)
    ∷ (codes "upgrade.sql", 1)
    ∷ (codes "upgradeVotingHistory.sql", 1)
    ∷ (codes "upgradeVotings.sql", 2)
    ∷ (codes "upgrades.sql", 2)
    ∷ []
