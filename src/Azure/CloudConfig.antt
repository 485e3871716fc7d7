-- ===== src/Azure/CloudConfig.antt =====
-- `GetAzureCloudProviderConfig` (azure/cloudconfig.go).
use azk.Base.{String, [], ◌∷◌, ◌<>◌, joined_lines}

unfoldable pub azure_cloud_provider_config :
    String → String → String → String → String → String → String
azure_cloud_provider_config tenant_id subscription_id client_id client_secret group_name
      group_location =
    joined_lines (
      "{"
      ∷ "\"cloud\":\"AzurePublicCloud\","
      ∷ ("\"tenantId\": \"" <> tenant_id <> "\",")
      ∷ ("\"subscriptionId\": \"" <> subscription_id <> "\",")
      ∷ ("\"aadClientId\": \"" <> client_id <> "\",")
      ∷ ("\"aadClientSecret\": \"" <> client_secret <> "\",")
      ∷ ("\"resourceGroup\": \"" <> group_name <> "\",")
      ∷ ("\"location\": \"" <> group_location <> "\",")
      ∷ "\"vmType\": \"vmss\","
      ∷ "\"subnetName\": \"agent-subnet\","
      ∷ "\"securityGroupName\": \"azk-nsg\","
      ∷ "\"vnetName\": \"azk-vnet\","
      ∷ ("\"vnetResourceGroup\": \"" <> group_name <> "\",")
      ∷ "\"routeTableName\": \"azk-routetable\","
      ∷ "\"primaryAvailabilitySetName\": \"\","
      ∷ "\"primaryScaleSetName\": \"\","
      ∷ "\"cloudProviderBackoff\": true,"
      ∷ "\"cloudProviderBackoffRetries\": 6,"
      ∷ "\"cloudProviderBackoffExponent\": 1.5,"
      ∷ "\"cloudProviderBackoffDuration\": 5,"
      ∷ "\"cloudProviderBackoffJitter\": 1.0,"
      ∷ "\"cloudProviderRatelimit\": true,"
      ∷ "\"cloudProviderRateLimitQPS\": 3.0,"
      ∷ "\"cloudProviderRateLimitBucket\": 10,"
      ∷ "\"useManagedIdentityExtension\": false,"
      ∷ "\"userAssignedIdentityID\": \"\","
      ∷ "\"useInstanceMetadata\": true,"
      ∷ "\"loadBalancerSku\": \"Standard\","
      ∷ "\"excludeMasterFromStandardLB\": true,"
      ∷ "\"providerVaultName\": \"\","
      ∷ "\"maximumLoadBalancerRuleCount\": 250,"
      ∷ "\"providerKeyName\": \"k8s\","
      ∷ "\"providerKeyVersion\": \"\""
      ∷ "}"
      ∷ [])
